-- ===== src/Alloc/Shrinking.antt =====
-- `mm_realloc` of hw3/mm_alloc.c where the copy runs out of the new block.
