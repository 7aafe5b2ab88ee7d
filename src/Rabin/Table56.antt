-- ===== src/Rabin/Table56.antt =====
-- rabin.c, `table56`.
use simvacation.Common.{ℕ, List, [], ◌∷◌}

unfoldable pub table56 : List ℕ
table56 =
    0x0000000000000000 ∷ 0x000000001b000000 ∷ 0x0000000036000000 ∷ 0x000000002d000000
    ∷ 0x000000006c000000 ∷ 0x0000000077000000 ∷ 0x000000005a000000 ∷ 0x0000000041000000
    ∷ 0x00000000d8000000 ∷ 0x00000000c3000000 ∷ 0x00000000ee000000 ∷ 0x00000000f5000000
    ∷ 0x00000000b4000000 ∷ 0x00000000af000000 ∷ 0x0000000082000000 ∷ 0x0000000099000000
    ∷ 0x00000001b0000000 ∷ 0x00000001ab000000 ∷ 0x0000000186000000 ∷ 0x000000019d000000
    ∷ 0x00000001dc000000 ∷ 0x00000001c7000000 ∷ 0x00000001ea000000 ∷ 0x00000001f1000000
    ∷ 0x0000000168000000 ∷ 0x0000000173000000 ∷ 0x000000015e000000 ∷ 0x0000000145000000
    ∷ 0x0000000104000000 ∷ 0x000000011f000000 ∷ 0x0000000132000000 ∷ 0x0000000129000000
    ∷ 0x0000000360000000 ∷ 0x000000037b000000 ∷ 0x0000000356000000 ∷ 0x000000034d000000
    ∷ 0x000000030c000000 ∷ 0x0000000317000000 ∷ 0x000000033a000000 ∷ 0x0000000321000000
    ∷ 0x00000003b8000000 ∷ 0x00000003a3000000 ∷ 0x000000038e000000 ∷ 0x0000000395000000
    ∷ 0x00000003d4000000 ∷ 0x00000003cf000000 ∷ 0x00000003e2000000 ∷ 0x00000003f9000000
    ∷ 0x00000002d0000000 ∷ 0x00000002cb000000 ∷ 0x00000002e6000000 ∷ 0x00000002fd000000
    ∷ 0x00000002bc000000 ∷ 0x00000002a7000000 ∷ 0x000000028a000000 ∷ 0x0000000291000000
    ∷ 0x0000000208000000 ∷ 0x0000000213000000 ∷ 0x000000023e000000 ∷ 0x0000000225000000
    ∷ 0x0000000264000000 ∷ 0x000000027f000000 ∷ 0x0000000252000000 ∷ 0x0000000249000000
    ∷ 0x00000006c0000000 ∷ 0x00000006db000000 ∷ 0x00000006f6000000 ∷ 0x00000006ed000000
    ∷ 0x00000006ac000000 ∷ 0x00000006b7000000 ∷ 0x000000069a000000 ∷ 0x0000000681000000
    ∷ 0x0000000618000000 ∷ 0x0000000603000000 ∷ 0x000000062e000000 ∷ 0x0000000635000000
    ∷ 0x0000000674000000 ∷ 0x000000066f000000 ∷ 0x0000000642000000 ∷ 0x0000000659000000
    ∷ 0x0000000770000000 ∷ 0x000000076b000000 ∷ 0x0000000746000000 ∷ 0x000000075d000000
    ∷ 0x000000071c000000 ∷ 0x0000000707000000 ∷ 0x000000072a000000 ∷ 0x0000000731000000
    ∷ 0x00000007a8000000 ∷ 0x00000007b3000000 ∷ 0x000000079e000000 ∷ 0x0000000785000000
    ∷ 0x00000007c4000000 ∷ 0x00000007df000000 ∷ 0x00000007f2000000 ∷ 0x00000007e9000000
    ∷ 0x00000005a0000000 ∷ 0x00000005bb000000 ∷ 0x0000000596000000 ∷ 0x000000058d000000
    ∷ 0x00000005cc000000 ∷ 0x00000005d7000000 ∷ 0x00000005fa000000 ∷ 0x00000005e1000000
    ∷ 0x0000000578000000 ∷ 0x0000000563000000 ∷ 0x000000054e000000 ∷ 0x0000000555000000
    ∷ 0x0000000514000000 ∷ 0x000000050f000000 ∷ 0x0000000522000000 ∷ 0x0000000539000000
    ∷ 0x0000000410000000 ∷ 0x000000040b000000 ∷ 0x0000000426000000 ∷ 0x000000043d000000
    ∷ 0x000000047c000000 ∷ 0x0000000467000000 ∷ 0x000000044a000000 ∷ 0x0000000451000000
    ∷ 0x00000004c8000000 ∷ 0x00000004d3000000 ∷ 0x00000004fe000000 ∷ 0x00000004e5000000
    ∷ 0x00000004a4000000 ∷ 0x00000004bf000000 ∷ 0x0000000492000000 ∷ 0x0000000489000000
    ∷ 0x0000000d80000000 ∷ 0x0000000d9b000000 ∷ 0x0000000db6000000 ∷ 0x0000000dad000000
    ∷ 0x0000000dec000000 ∷ 0x0000000df7000000 ∷ 0x0000000dda000000 ∷ 0x0000000dc1000000
    ∷ 0x0000000d58000000 ∷ 0x0000000d43000000 ∷ 0x0000000d6e000000 ∷ 0x0000000d75000000
    ∷ 0x0000000d34000000 ∷ 0x0000000d2f000000 ∷ 0x0000000d02000000 ∷ 0x0000000d19000000
    ∷ 0x0000000c30000000 ∷ 0x0000000c2b000000 ∷ 0x0000000c06000000 ∷ 0x0000000c1d000000
    ∷ 0x0000000c5c000000 ∷ 0x0000000c47000000 ∷ 0x0000000c6a000000 ∷ 0x0000000c71000000
    ∷ 0x0000000ce8000000 ∷ 0x0000000cf3000000 ∷ 0x0000000cde000000 ∷ 0x0000000cc5000000
    ∷ 0x0000000c84000000 ∷ 0x0000000c9f000000 ∷ 0x0000000cb2000000 ∷ 0x0000000ca9000000
    ∷ 0x0000000ee0000000 ∷ 0x0000000efb000000 ∷ 0x0000000ed6000000 ∷ 0x0000000ecd000000
    ∷ 0x0000000e8c000000 ∷ 0x0000000e97000000 ∷ 0x0000000eba000000 ∷ 0x0000000ea1000000
    ∷ 0x0000000e38000000 ∷ 0x0000000e23000000 ∷ 0x0000000e0e000000 ∷ 0x0000000e15000000
    ∷ 0x0000000e54000000 ∷ 0x0000000e4f000000 ∷ 0x0000000e62000000 ∷ 0x0000000e79000000
    ∷ 0x0000000f50000000 ∷ 0x0000000f4b000000 ∷ 0x0000000f66000000 ∷ 0x0000000f7d000000
    ∷ 0x0000000f3c000000 ∷ 0x0000000f27000000 ∷ 0x0000000f0a000000 ∷ 0x0000000f11000000
    ∷ 0x0000000f88000000 ∷ 0x0000000f93000000 ∷ 0x0000000fbe000000 ∷ 0x0000000fa5000000
    ∷ 0x0000000fe4000000 ∷ 0x0000000fff000000 ∷ 0x0000000fd2000000 ∷ 0x0000000fc9000000
    ∷ 0x0000000b40000000 ∷ 0x0000000b5b000000 ∷ 0x0000000b76000000 ∷ 0x0000000b6d000000
    ∷ 0x0000000b2c000000 ∷ 0x0000000b37000000 ∷ 0x0000000b1a000000 ∷ 0x0000000b01000000
    ∷ 0x0000000b98000000 ∷ 0x0000000b83000000 ∷ 0x0000000bae000000 ∷ 0x0000000bb5000000
    ∷ 0x0000000bf4000000 ∷ 0x0000000bef000000 ∷ 0x0000000bc2000000 ∷ 0x0000000bd9000000
    ∷ 0x0000000af0000000 ∷ 0x0000000aeb000000 ∷ 0x0000000ac6000000 ∷ 0x0000000add000000
    ∷ 0x0000000a9c000000 ∷ 0x0000000a87000000 ∷ 0x0000000aaa000000 ∷ 0x0000000ab1000000
    ∷ 0x0000000a28000000 ∷ 0x0000000a33000000 ∷ 0x0000000a1e000000 ∷ 0x0000000a05000000
    ∷ 0x0000000a44000000 ∷ 0x0000000a5f000000 ∷ 0x0000000a72000000 ∷ 0x0000000a69000000
    ∷ 0x0000000820000000 ∷ 0x000000083b000000 ∷ 0x0000000816000000 ∷ 0x000000080d000000
    ∷ 0x000000084c000000 ∷ 0x0000000857000000 ∷ 0x000000087a000000 ∷ 0x0000000861000000
    ∷ 0x00000008f8000000 ∷ 0x00000008e3000000 ∷ 0x00000008ce000000 ∷ 0x00000008d5000000
    ∷ 0x0000000894000000 ∷ 0x000000088f000000 ∷ 0x00000008a2000000 ∷ 0x00000008b9000000
    ∷ 0x0000000990000000 ∷ 0x000000098b000000 ∷ 0x00000009a6000000 ∷ 0x00000009bd000000
    ∷ 0x00000009fc000000 ∷ 0x00000009e7000000 ∷ 0x00000009ca000000 ∷ 0x00000009d1000000
    ∷ 0x0000000948000000 ∷ 0x0000000953000000 ∷ 0x000000097e000000 ∷ 0x0000000965000000
    ∷ 0x0000000924000000 ∷ 0x000000093f000000 ∷ 0x0000000912000000 ∷ 0x0000000909000000 ∷ []
