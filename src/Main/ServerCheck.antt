-- ===== src/Main/ServerCheck.antt =====
-- main.ino: validateServerConfiguration.
use planetopia_nodes.Shared.{Bool, not, ◌&&◌, [], ◌++◌, ◌==◌, if◌then◌else◌}
use planetopia_nodes.Log.Text.{Text, text}
use planetopia_nodes.Log.Logger.{LogLevel, rank, log_warn, logln}
use planetopia_nodes.Eeprom.Manager.{Manager, load_master_flag}

abbrev pub config_line : LogLevel → Text → Text
config_line current message = logln current (text "CONFIG") message log_warn

-- Over DEFAULT_LOG_LEVEL, the current level, isDevMode, devMasterFlag, and whether the adapter is a
-- serial one.
unfoldable pub validate_server_configuration :
    LogLevel → LogLevel → Bool → Bool → Bool → Manager → Text
validate_server_configuration configured current is_dev_mode dev_master_flag has_serial_adapter
      eeprom =
    let is_master_node = (if is_dev_mode then dev_master_flag else load_master_flag eeprom) in
    let logging_disabled = (rank configured == 4) in
    (if is_master_node && not has_serial_adapter && not logging_disabled
      then config_line current
          (text "WARNING: Master node without SERIAL_ADAPTER may cause server communication issues")
      else [])
    ++ (if has_serial_adapter && not logging_disabled
        then config_line current (
            text
              "WARNING: SERIAL_ADAPTER with logging enabled will interfere with server communication")
          ++ config_line current (text "Set DEFAULT_LOG_LEVEL = LOG_NONE in project_config.h")
        else [])
