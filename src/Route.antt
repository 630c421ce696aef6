-- ===== src/Route.antt =====
-- The parser of ROUTE signalling, lib/framing/route_parser.h and lib/framing/route_parser.cc. Lct is the
-- LCT header, Text the scanning of XML with the functions of the C library that it calls, Slt the service
-- list table, Mpd the media presentation description, Process the object and its calls. A text is the list of its
-- bytes up to the first NUL, a pointer into it is the rest of it from there, and a null pointer is `none`.
pub mod Text
pub mod Lct
pub mod Slt
pub mod Mpd
pub mod Process
pub mod Spec
pub mod Tags
mod Tests
