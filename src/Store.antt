-- ===== src/Store.antt =====
-- The partition loader: cpp/src/PartitionStore.cpp. A file is the list of its lines, or `none` if
-- it cannot be opened. `reserve`, the size hint and the log lines change no column and are left out.
pub mod Csv
pub mod Load
pub mod Table
pub mod Scan
