-- ===== src/Metric.antt =====
-- Distances between C strings (src/hamming.c, src/diagonal/metric.h).
pub mod Hamming
pub mod Levenshtein
mod Examples
