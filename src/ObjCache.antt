-- ===== src/ObjCache.antt =====
-- src/nas_ndi_obj_cache.cpp and inc/opx/nas_ndi_obj_cache.h: the three object caches. Each takes its
-- lock over a whole method, so that a method is one step. A pointer is an `Option`, `none` for
-- `nullptr`; a method that writes through the pointer returns the caller's object after the call.
pub mod Virtual
pub mod Slave
pub mod Brport
