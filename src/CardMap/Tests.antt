-- ===== src/CardMap/Tests.antt =====
-- The maps of a heap of one megabyte, in pages of 4096 bytes.
use multi_mlton.Prelude.{◌≡◌, refl, true, arith}
use multi_mlton.Align.{IsPow2, align}
use multi_mlton.CardMap.{sizeof_card_map}

page-IsPow2 : IsPow2 4096
page-IsPow2 = (12, refl, omega arith)

one_page : sizeof_card_map true 4096 0x100000 ≡ 4096
unfolding sizeof_card_map align
one_page = refl
