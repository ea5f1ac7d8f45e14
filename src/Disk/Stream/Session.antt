-- ===== src/Disk/Stream/Session.antt =====
-- A use of src/disk/dstream.c from `dstream_new` on.
