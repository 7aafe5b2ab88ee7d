-- ===== src/Rabin/Table40.antt =====
-- rabin.c, `table40`.
use simvacation.Common.{ℕ, List, [], ◌∷◌}

unfoldable pub table40 : List ℕ
table40 =
    0x0000000000000000 ∷ 0x0000000000001b00 ∷ 0x0000000000003600 ∷ 0x0000000000002d00
    ∷ 0x0000000000006c00 ∷ 0x0000000000007700 ∷ 0x0000000000005a00 ∷ 0x0000000000004100
    ∷ 0x000000000000d800 ∷ 0x000000000000c300 ∷ 0x000000000000ee00 ∷ 0x000000000000f500
    ∷ 0x000000000000b400 ∷ 0x000000000000af00 ∷ 0x0000000000008200 ∷ 0x0000000000009900
    ∷ 0x000000000001b000 ∷ 0x000000000001ab00 ∷ 0x0000000000018600 ∷ 0x0000000000019d00
    ∷ 0x000000000001dc00 ∷ 0x000000000001c700 ∷ 0x000000000001ea00 ∷ 0x000000000001f100
    ∷ 0x0000000000016800 ∷ 0x0000000000017300 ∷ 0x0000000000015e00 ∷ 0x0000000000014500
    ∷ 0x0000000000010400 ∷ 0x0000000000011f00 ∷ 0x0000000000013200 ∷ 0x0000000000012900
    ∷ 0x0000000000036000 ∷ 0x0000000000037b00 ∷ 0x0000000000035600 ∷ 0x0000000000034d00
    ∷ 0x0000000000030c00 ∷ 0x0000000000031700 ∷ 0x0000000000033a00 ∷ 0x0000000000032100
    ∷ 0x000000000003b800 ∷ 0x000000000003a300 ∷ 0x0000000000038e00 ∷ 0x0000000000039500
    ∷ 0x000000000003d400 ∷ 0x000000000003cf00 ∷ 0x000000000003e200 ∷ 0x000000000003f900
    ∷ 0x000000000002d000 ∷ 0x000000000002cb00 ∷ 0x000000000002e600 ∷ 0x000000000002fd00
    ∷ 0x000000000002bc00 ∷ 0x000000000002a700 ∷ 0x0000000000028a00 ∷ 0x0000000000029100
    ∷ 0x0000000000020800 ∷ 0x0000000000021300 ∷ 0x0000000000023e00 ∷ 0x0000000000022500
    ∷ 0x0000000000026400 ∷ 0x0000000000027f00 ∷ 0x0000000000025200 ∷ 0x0000000000024900
    ∷ 0x000000000006c000 ∷ 0x000000000006db00 ∷ 0x000000000006f600 ∷ 0x000000000006ed00
    ∷ 0x000000000006ac00 ∷ 0x000000000006b700 ∷ 0x0000000000069a00 ∷ 0x0000000000068100
    ∷ 0x0000000000061800 ∷ 0x0000000000060300 ∷ 0x0000000000062e00 ∷ 0x0000000000063500
    ∷ 0x0000000000067400 ∷ 0x0000000000066f00 ∷ 0x0000000000064200 ∷ 0x0000000000065900
    ∷ 0x0000000000077000 ∷ 0x0000000000076b00 ∷ 0x0000000000074600 ∷ 0x0000000000075d00
    ∷ 0x0000000000071c00 ∷ 0x0000000000070700 ∷ 0x0000000000072a00 ∷ 0x0000000000073100
    ∷ 0x000000000007a800 ∷ 0x000000000007b300 ∷ 0x0000000000079e00 ∷ 0x0000000000078500
    ∷ 0x000000000007c400 ∷ 0x000000000007df00 ∷ 0x000000000007f200 ∷ 0x000000000007e900
    ∷ 0x000000000005a000 ∷ 0x000000000005bb00 ∷ 0x0000000000059600 ∷ 0x0000000000058d00
    ∷ 0x000000000005cc00 ∷ 0x000000000005d700 ∷ 0x000000000005fa00 ∷ 0x000000000005e100
    ∷ 0x0000000000057800 ∷ 0x0000000000056300 ∷ 0x0000000000054e00 ∷ 0x0000000000055500
    ∷ 0x0000000000051400 ∷ 0x0000000000050f00 ∷ 0x0000000000052200 ∷ 0x0000000000053900
    ∷ 0x0000000000041000 ∷ 0x0000000000040b00 ∷ 0x0000000000042600 ∷ 0x0000000000043d00
    ∷ 0x0000000000047c00 ∷ 0x0000000000046700 ∷ 0x0000000000044a00 ∷ 0x0000000000045100
    ∷ 0x000000000004c800 ∷ 0x000000000004d300 ∷ 0x000000000004fe00 ∷ 0x000000000004e500
    ∷ 0x000000000004a400 ∷ 0x000000000004bf00 ∷ 0x0000000000049200 ∷ 0x0000000000048900
    ∷ 0x00000000000d8000 ∷ 0x00000000000d9b00 ∷ 0x00000000000db600 ∷ 0x00000000000dad00
    ∷ 0x00000000000dec00 ∷ 0x00000000000df700 ∷ 0x00000000000dda00 ∷ 0x00000000000dc100
    ∷ 0x00000000000d5800 ∷ 0x00000000000d4300 ∷ 0x00000000000d6e00 ∷ 0x00000000000d7500
    ∷ 0x00000000000d3400 ∷ 0x00000000000d2f00 ∷ 0x00000000000d0200 ∷ 0x00000000000d1900
    ∷ 0x00000000000c3000 ∷ 0x00000000000c2b00 ∷ 0x00000000000c0600 ∷ 0x00000000000c1d00
    ∷ 0x00000000000c5c00 ∷ 0x00000000000c4700 ∷ 0x00000000000c6a00 ∷ 0x00000000000c7100
    ∷ 0x00000000000ce800 ∷ 0x00000000000cf300 ∷ 0x00000000000cde00 ∷ 0x00000000000cc500
    ∷ 0x00000000000c8400 ∷ 0x00000000000c9f00 ∷ 0x00000000000cb200 ∷ 0x00000000000ca900
    ∷ 0x00000000000ee000 ∷ 0x00000000000efb00 ∷ 0x00000000000ed600 ∷ 0x00000000000ecd00
    ∷ 0x00000000000e8c00 ∷ 0x00000000000e9700 ∷ 0x00000000000eba00 ∷ 0x00000000000ea100
    ∷ 0x00000000000e3800 ∷ 0x00000000000e2300 ∷ 0x00000000000e0e00 ∷ 0x00000000000e1500
    ∷ 0x00000000000e5400 ∷ 0x00000000000e4f00 ∷ 0x00000000000e6200 ∷ 0x00000000000e7900
    ∷ 0x00000000000f5000 ∷ 0x00000000000f4b00 ∷ 0x00000000000f6600 ∷ 0x00000000000f7d00
    ∷ 0x00000000000f3c00 ∷ 0x00000000000f2700 ∷ 0x00000000000f0a00 ∷ 0x00000000000f1100
    ∷ 0x00000000000f8800 ∷ 0x00000000000f9300 ∷ 0x00000000000fbe00 ∷ 0x00000000000fa500
    ∷ 0x00000000000fe400 ∷ 0x00000000000fff00 ∷ 0x00000000000fd200 ∷ 0x00000000000fc900
    ∷ 0x00000000000b4000 ∷ 0x00000000000b5b00 ∷ 0x00000000000b7600 ∷ 0x00000000000b6d00
    ∷ 0x00000000000b2c00 ∷ 0x00000000000b3700 ∷ 0x00000000000b1a00 ∷ 0x00000000000b0100
    ∷ 0x00000000000b9800 ∷ 0x00000000000b8300 ∷ 0x00000000000bae00 ∷ 0x00000000000bb500
    ∷ 0x00000000000bf400 ∷ 0x00000000000bef00 ∷ 0x00000000000bc200 ∷ 0x00000000000bd900
    ∷ 0x00000000000af000 ∷ 0x00000000000aeb00 ∷ 0x00000000000ac600 ∷ 0x00000000000add00
    ∷ 0x00000000000a9c00 ∷ 0x00000000000a8700 ∷ 0x00000000000aaa00 ∷ 0x00000000000ab100
    ∷ 0x00000000000a2800 ∷ 0x00000000000a3300 ∷ 0x00000000000a1e00 ∷ 0x00000000000a0500
    ∷ 0x00000000000a4400 ∷ 0x00000000000a5f00 ∷ 0x00000000000a7200 ∷ 0x00000000000a6900
    ∷ 0x0000000000082000 ∷ 0x0000000000083b00 ∷ 0x0000000000081600 ∷ 0x0000000000080d00
    ∷ 0x0000000000084c00 ∷ 0x0000000000085700 ∷ 0x0000000000087a00 ∷ 0x0000000000086100
    ∷ 0x000000000008f800 ∷ 0x000000000008e300 ∷ 0x000000000008ce00 ∷ 0x000000000008d500
    ∷ 0x0000000000089400 ∷ 0x0000000000088f00 ∷ 0x000000000008a200 ∷ 0x000000000008b900
    ∷ 0x0000000000099000 ∷ 0x0000000000098b00 ∷ 0x000000000009a600 ∷ 0x000000000009bd00
    ∷ 0x000000000009fc00 ∷ 0x000000000009e700 ∷ 0x000000000009ca00 ∷ 0x000000000009d100
    ∷ 0x0000000000094800 ∷ 0x0000000000095300 ∷ 0x0000000000097e00 ∷ 0x0000000000096500
    ∷ 0x0000000000092400 ∷ 0x0000000000093f00 ∷ 0x0000000000091200 ∷ 0x0000000000090900 ∷ []
