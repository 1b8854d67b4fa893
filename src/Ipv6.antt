-- ===== src/Ipv6.antt =====
-- `std::net::Ipv6Addr`: its segments and `Display`, and its parser.
mod Segments
mod Parse
unfoldable pub use Segments.*
pub use Parse.{IpAddr, v4, v6}
unfoldable pub use Parse.{parse_ipv6, parse_ip_addr}
pub mod Lines
