-- ===== src/Config.antt =====
-- The import filters of a source as the operator configures them: work/config/filterrules.go and
-- work/config/sourcefilters.go.
pub mod Rules
pub mod RuleLaws
pub mod Groups
pub mod Profiles
pub mod Literals
mod Tests
