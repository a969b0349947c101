-- ===== src/Render.antt =====
-- pkg/render: which transformers a component is given to, and running them.
pub mod Match
pub mod Execute
pub mod Module
