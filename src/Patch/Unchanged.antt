-- ===== src/Patch/Unchanged.antt =====
-- A call site that is patched with the target it has already.
