-- ===== src/Codec.antt =====
-- Net/include/Codec.h and Net/src/Codec.cpp. A stringPiece that is only read is the list of the
-- bytes that it spans. A decoder returns its `int`, and the message if it set one.
pub mod Line
pub mod Length
pub mod View
mod Tests
