-- ===== src/Libs.antt =====
-- The libraries that the code calls and does not contain: json-glib (Json) and GLib's string
-- functions (Strings). Each is a record of the calls, with the documented behaviour of each as laws.
pub mod Json
pub mod Strings
