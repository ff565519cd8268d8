-- ===== src/Tests.antt =====
-- Runs of the models on concrete inputs.
mod Bier
mod Fw
mod Encoding
mod Dv
mod Table
mod Trees
mod Incoming
