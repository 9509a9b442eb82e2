-- ===== src/Fs.antt =====
-- libkernel/src/fs: what a file says about itself, and who may use it.
pub mod Attr
