-- ===== src/Examples.antt =====
-- The theorems at concrete states, and runs of the model on small inputs.
mod Pages
mod Processes
mod Texts
mod Archives
mod Console
mod Keyboard
mod Directories
mod Devices
mod Drives
mod Buses
mod Formats
mod Machine
mod Programs
mod User
