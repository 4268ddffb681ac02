-- ===== src/ByteSwap/Tests.antt =====
-- Runs of byteswap.c.
use lpc17xx_network.Base.{◌≡◌, refl}
use lpc17xx_network.ByteSwap.{swap_endian16, swap_endian32}

ether_type_ip : swap_endian16 0x0008 ≡ 0x0800
unfolding swap_endian16
ether_type_ip = refl

our_address : swap_endian32 0xC0A800ab ≡ 0xab00a8c0
unfolding swap_endian32
our_address = refl
