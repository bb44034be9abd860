-- ===== src/Skills.antt =====
-- src/skills: which skills are offered for a text.
pub mod Selector
