-- ===== src/Rabin/Table64.antt =====
-- rabin.c, `table64`.
use simvacation.Common.{ℕ, List, [], ◌∷◌}

unfoldable pub table64 : List ℕ
table64 =
    0x0000000000000000 ∷ 0x0000001b00000000 ∷ 0x0000003600000000 ∷ 0x0000002d00000000
    ∷ 0x0000006c00000000 ∷ 0x0000007700000000 ∷ 0x0000005a00000000 ∷ 0x0000004100000000
    ∷ 0x000000d800000000 ∷ 0x000000c300000000 ∷ 0x000000ee00000000 ∷ 0x000000f500000000
    ∷ 0x000000b400000000 ∷ 0x000000af00000000 ∷ 0x0000008200000000 ∷ 0x0000009900000000
    ∷ 0x000001b000000000 ∷ 0x000001ab00000000 ∷ 0x0000018600000000 ∷ 0x0000019d00000000
    ∷ 0x000001dc00000000 ∷ 0x000001c700000000 ∷ 0x000001ea00000000 ∷ 0x000001f100000000
    ∷ 0x0000016800000000 ∷ 0x0000017300000000 ∷ 0x0000015e00000000 ∷ 0x0000014500000000
    ∷ 0x0000010400000000 ∷ 0x0000011f00000000 ∷ 0x0000013200000000 ∷ 0x0000012900000000
    ∷ 0x0000036000000000 ∷ 0x0000037b00000000 ∷ 0x0000035600000000 ∷ 0x0000034d00000000
    ∷ 0x0000030c00000000 ∷ 0x0000031700000000 ∷ 0x0000033a00000000 ∷ 0x0000032100000000
    ∷ 0x000003b800000000 ∷ 0x000003a300000000 ∷ 0x0000038e00000000 ∷ 0x0000039500000000
    ∷ 0x000003d400000000 ∷ 0x000003cf00000000 ∷ 0x000003e200000000 ∷ 0x000003f900000000
    ∷ 0x000002d000000000 ∷ 0x000002cb00000000 ∷ 0x000002e600000000 ∷ 0x000002fd00000000
    ∷ 0x000002bc00000000 ∷ 0x000002a700000000 ∷ 0x0000028a00000000 ∷ 0x0000029100000000
    ∷ 0x0000020800000000 ∷ 0x0000021300000000 ∷ 0x0000023e00000000 ∷ 0x0000022500000000
    ∷ 0x0000026400000000 ∷ 0x0000027f00000000 ∷ 0x0000025200000000 ∷ 0x0000024900000000
    ∷ 0x000006c000000000 ∷ 0x000006db00000000 ∷ 0x000006f600000000 ∷ 0x000006ed00000000
    ∷ 0x000006ac00000000 ∷ 0x000006b700000000 ∷ 0x0000069a00000000 ∷ 0x0000068100000000
    ∷ 0x0000061800000000 ∷ 0x0000060300000000 ∷ 0x0000062e00000000 ∷ 0x0000063500000000
    ∷ 0x0000067400000000 ∷ 0x0000066f00000000 ∷ 0x0000064200000000 ∷ 0x0000065900000000
    ∷ 0x0000077000000000 ∷ 0x0000076b00000000 ∷ 0x0000074600000000 ∷ 0x0000075d00000000
    ∷ 0x0000071c00000000 ∷ 0x0000070700000000 ∷ 0x0000072a00000000 ∷ 0x0000073100000000
    ∷ 0x000007a800000000 ∷ 0x000007b300000000 ∷ 0x0000079e00000000 ∷ 0x0000078500000000
    ∷ 0x000007c400000000 ∷ 0x000007df00000000 ∷ 0x000007f200000000 ∷ 0x000007e900000000
    ∷ 0x000005a000000000 ∷ 0x000005bb00000000 ∷ 0x0000059600000000 ∷ 0x0000058d00000000
    ∷ 0x000005cc00000000 ∷ 0x000005d700000000 ∷ 0x000005fa00000000 ∷ 0x000005e100000000
    ∷ 0x0000057800000000 ∷ 0x0000056300000000 ∷ 0x0000054e00000000 ∷ 0x0000055500000000
    ∷ 0x0000051400000000 ∷ 0x0000050f00000000 ∷ 0x0000052200000000 ∷ 0x0000053900000000
    ∷ 0x0000041000000000 ∷ 0x0000040b00000000 ∷ 0x0000042600000000 ∷ 0x0000043d00000000
    ∷ 0x0000047c00000000 ∷ 0x0000046700000000 ∷ 0x0000044a00000000 ∷ 0x0000045100000000
    ∷ 0x000004c800000000 ∷ 0x000004d300000000 ∷ 0x000004fe00000000 ∷ 0x000004e500000000
    ∷ 0x000004a400000000 ∷ 0x000004bf00000000 ∷ 0x0000049200000000 ∷ 0x0000048900000000
    ∷ 0x00000d8000000000 ∷ 0x00000d9b00000000 ∷ 0x00000db600000000 ∷ 0x00000dad00000000
    ∷ 0x00000dec00000000 ∷ 0x00000df700000000 ∷ 0x00000dda00000000 ∷ 0x00000dc100000000
    ∷ 0x00000d5800000000 ∷ 0x00000d4300000000 ∷ 0x00000d6e00000000 ∷ 0x00000d7500000000
    ∷ 0x00000d3400000000 ∷ 0x00000d2f00000000 ∷ 0x00000d0200000000 ∷ 0x00000d1900000000
    ∷ 0x00000c3000000000 ∷ 0x00000c2b00000000 ∷ 0x00000c0600000000 ∷ 0x00000c1d00000000
    ∷ 0x00000c5c00000000 ∷ 0x00000c4700000000 ∷ 0x00000c6a00000000 ∷ 0x00000c7100000000
    ∷ 0x00000ce800000000 ∷ 0x00000cf300000000 ∷ 0x00000cde00000000 ∷ 0x00000cc500000000
    ∷ 0x00000c8400000000 ∷ 0x00000c9f00000000 ∷ 0x00000cb200000000 ∷ 0x00000ca900000000
    ∷ 0x00000ee000000000 ∷ 0x00000efb00000000 ∷ 0x00000ed600000000 ∷ 0x00000ecd00000000
    ∷ 0x00000e8c00000000 ∷ 0x00000e9700000000 ∷ 0x00000eba00000000 ∷ 0x00000ea100000000
    ∷ 0x00000e3800000000 ∷ 0x00000e2300000000 ∷ 0x00000e0e00000000 ∷ 0x00000e1500000000
    ∷ 0x00000e5400000000 ∷ 0x00000e4f00000000 ∷ 0x00000e6200000000 ∷ 0x00000e7900000000
    ∷ 0x00000f5000000000 ∷ 0x00000f4b00000000 ∷ 0x00000f6600000000 ∷ 0x00000f7d00000000
    ∷ 0x00000f3c00000000 ∷ 0x00000f2700000000 ∷ 0x00000f0a00000000 ∷ 0x00000f1100000000
    ∷ 0x00000f8800000000 ∷ 0x00000f9300000000 ∷ 0x00000fbe00000000 ∷ 0x00000fa500000000
    ∷ 0x00000fe400000000 ∷ 0x00000fff00000000 ∷ 0x00000fd200000000 ∷ 0x00000fc900000000
    ∷ 0x00000b4000000000 ∷ 0x00000b5b00000000 ∷ 0x00000b7600000000 ∷ 0x00000b6d00000000
    ∷ 0x00000b2c00000000 ∷ 0x00000b3700000000 ∷ 0x00000b1a00000000 ∷ 0x00000b0100000000
    ∷ 0x00000b9800000000 ∷ 0x00000b8300000000 ∷ 0x00000bae00000000 ∷ 0x00000bb500000000
    ∷ 0x00000bf400000000 ∷ 0x00000bef00000000 ∷ 0x00000bc200000000 ∷ 0x00000bd900000000
    ∷ 0x00000af000000000 ∷ 0x00000aeb00000000 ∷ 0x00000ac600000000 ∷ 0x00000add00000000
    ∷ 0x00000a9c00000000 ∷ 0x00000a8700000000 ∷ 0x00000aaa00000000 ∷ 0x00000ab100000000
    ∷ 0x00000a2800000000 ∷ 0x00000a3300000000 ∷ 0x00000a1e00000000 ∷ 0x00000a0500000000
    ∷ 0x00000a4400000000 ∷ 0x00000a5f00000000 ∷ 0x00000a7200000000 ∷ 0x00000a6900000000
    ∷ 0x0000082000000000 ∷ 0x0000083b00000000 ∷ 0x0000081600000000 ∷ 0x0000080d00000000
    ∷ 0x0000084c00000000 ∷ 0x0000085700000000 ∷ 0x0000087a00000000 ∷ 0x0000086100000000
    ∷ 0x000008f800000000 ∷ 0x000008e300000000 ∷ 0x000008ce00000000 ∷ 0x000008d500000000
    ∷ 0x0000089400000000 ∷ 0x0000088f00000000 ∷ 0x000008a200000000 ∷ 0x000008b900000000
    ∷ 0x0000099000000000 ∷ 0x0000098b00000000 ∷ 0x000009a600000000 ∷ 0x000009bd00000000
    ∷ 0x000009fc00000000 ∷ 0x000009e700000000 ∷ 0x000009ca00000000 ∷ 0x000009d100000000
    ∷ 0x0000094800000000 ∷ 0x0000095300000000 ∷ 0x0000097e00000000 ∷ 0x0000096500000000
    ∷ 0x0000092400000000 ∷ 0x0000093f00000000 ∷ 0x0000091200000000 ∷ 0x0000090900000000 ∷ []
