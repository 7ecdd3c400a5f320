-- ===== src/Hardware.antt =====
-- main/src/hardware: the pins, the button, the LED and the seven-segment display.
pub mod Pins
pub mod Button
pub mod Pir
pub mod Led
pub mod Display
pub mod Wire
pub mod Digits
pub mod Frames
pub mod Alarm
pub mod Lamp
