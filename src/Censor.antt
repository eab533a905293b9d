-- ===== src/Censor.antt =====
-- src/game_logic/censor_sensor.h and .cpp: the words that are not let through.
pub mod Sensor
pub mod Cleaning
pub mod Words
pub mod Masks
pub mod Tiers
mod Tests
