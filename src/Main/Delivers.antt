-- ===== src/Main/Delivers.antt =====
-- The program of main.c and a host that listens.
use lpc17xx_network.Base.{ℕ}

abbrev pub listener_ip : ℕ
listener_ip = 0xc0a80476
