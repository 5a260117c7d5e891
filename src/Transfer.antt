-- ===== src/Transfer.antt =====
-- How files are cut up, moved in parts and put together again: es3/uploader.cpp,
-- es3/downloader.cpp and es3/compressor.cpp.
pub mod Plan
pub mod Pump
pub mod Finish
pub mod Uploader
