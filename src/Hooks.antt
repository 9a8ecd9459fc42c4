-- ===== src/Hooks.antt =====
-- The helpers of the BPF programs: utils/utils.h and hooks/hook_utils.h.
pub mod Text
pub mod Submit
