-- ===== src/Adapter/Factory.antt =====
-- AdapterFactory: the adapter type in the EEPROM, its pin, and the adapter that is made for it.
use planetopia_nodes.Shared.{ℕ, ◌%◌, Bool, Option, none, some, ◌==◌, if◌then◌else◌}
use planetopia_nodes.Errors.Codes.{ErrorTypeDigit, ModuleDigit, Fault, fault}
use planetopia_nodes.Eeprom.Manager.{Manager, load_adapter_type, save_adapter_type}
use planetopia_nodes.Adapter.Types.{
  AdapterType, serial_adapter, pir_adapter, led_adapter, raw, of_raw,
}

-- The pins of AdapterFactory.h; `none` is -1, for no pin.
abbrev pub default_pin : AdapterType → Option ℕ
default_pin pir_adapter = some 27
default_pin led_adapter = some 2
default_pin serial_adapter = none
default_pin _ = some 27

-- `adapterTypeFromEEPROM`
unfoldable pub adapter_type_from_eeprom : ℕ → AdapterType
adapter_type_from_eeprom b = if b == 255 then pir_adapter else of_raw b

-- `adapterTypeToEEPROM`
unfoldable pub adapter_type_to_eeprom : AdapterType → ℕ
adapter_type_to_eeprom t = raw t % 256

-- `isDevMode_` is a static member of the factory, beside the manager's own flag.
unfoldable pub load_adapter_type_from_eeprom : Bool → Manager → AdapterType
load_adapter_type_from_eeprom is_dev m =
    if is_dev then pir_adapter else adapter_type_from_eeprom (load_adapter_type m)

unfoldable pub save_adapter_type_to_eeprom : Bool → Manager → AdapterType → Manager
save_adapter_type_to_eeprom is_dev m t =
    if is_dev then m else save_adapter_type m (adapter_type_to_eeprom t)

unfoldable pub initialize_defaults_if_unset : Bool → Manager → Manager
initialize_defaults_if_unset is_dev m =
    if is_dev
    then m
    else if load_adapter_type m == 255
    then save_adapter_type m (adapter_type_to_eeprom pir_adapter)
    else m

-- An adapter that was made: which class, and on which pin; else the fault.
pub data Created : Type 0 where
  pir : Option ℕ → Created
  serial : Option ℕ → Created
  nothing : Fault → Created

unfoldable pub create_adapter : AdapterType → Option ℕ → Created
create_adapter pir_adapter pin = pir pin
create_adapter serial_adapter pin = serial pin
create_adapter _ pin = nothing (fault ErrorTypeDigit.config ModuleDigit.adapter 2)

unfoldable pub create_from_eeprom : Bool → Manager → Created
create_from_eeprom is_dev m =
    let t = load_adapter_type_from_eeprom is_dev m in create_adapter t (default_pin t)
