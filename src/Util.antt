-- ===== src/Util.antt =====
-- util.cpp: base64 and hexadecimal numbers; and the networks of tunsafe_ipaddr.cpp. A string is the list of its bytes up to the
-- terminating zero.
pub mod Base64
pub mod Hex
pub mod Cidr
pub mod Tests
