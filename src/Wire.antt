-- ===== src/Wire.antt =====
-- What the wire format takes from Go's standard library: encoding/binary and io.
pub mod BigEndian
pub mod Stream
pub mod Writer
