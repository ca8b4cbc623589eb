-- ===== src/Examples.antt =====
-- Concrete inputs of the theorems, by component.
mod SortBuffers
mod KvBuffers
mod PmemKvs
mod Clevels
mod Trees
mod Bentries
mod Buffered
mod Blevels
mod LearnIndexes
mod ComboTrees
