-- ===== src/Tests.antt =====
-- Runs of the modelled code, and the theorems at concrete inputs.
mod LexerRuns
mod LexerTheorems
mod LiteralTheorems
mod ListTheorems
mod NumberTheorems
mod RangeTheorems
mod GcTheorems
mod ParserRuns
mod StatementRuns
mod ParserTheorems
mod StatementTheorems
mod CallTheorems
mod FrameTheorems
