-- ===== src/XmlConfig.antt =====
-- src/detail/xml_config.cpp: the sensor's configuration page. A string view is the list of its bytes,
-- and a position in the page is the list of bytes from there on.
pub mod Markup
pub mod Fields
pub mod Values
