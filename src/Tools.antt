-- ===== src/Tools.antt =====
-- The command line tools under tools/.
pub mod Machine
pub mod Args
pub mod Label
pub mod Rw
pub mod Mkfs
pub mod MkfsLaws
pub mod MkfsClaims
pub mod MkfsRuns
pub mod Published
