-- ===== src/Rabin/Table48.antt =====
-- rabin.c, `table48`.
use simvacation.Common.{ℕ, List, [], ◌∷◌}

unfoldable pub table48 : List ℕ
table48 =
    0x0000000000000000 ∷ 0x00000000001b0000 ∷ 0x0000000000360000 ∷ 0x00000000002d0000
    ∷ 0x00000000006c0000 ∷ 0x0000000000770000 ∷ 0x00000000005a0000 ∷ 0x0000000000410000
    ∷ 0x0000000000d80000 ∷ 0x0000000000c30000 ∷ 0x0000000000ee0000 ∷ 0x0000000000f50000
    ∷ 0x0000000000b40000 ∷ 0x0000000000af0000 ∷ 0x0000000000820000 ∷ 0x0000000000990000
    ∷ 0x0000000001b00000 ∷ 0x0000000001ab0000 ∷ 0x0000000001860000 ∷ 0x00000000019d0000
    ∷ 0x0000000001dc0000 ∷ 0x0000000001c70000 ∷ 0x0000000001ea0000 ∷ 0x0000000001f10000
    ∷ 0x0000000001680000 ∷ 0x0000000001730000 ∷ 0x00000000015e0000 ∷ 0x0000000001450000
    ∷ 0x0000000001040000 ∷ 0x00000000011f0000 ∷ 0x0000000001320000 ∷ 0x0000000001290000
    ∷ 0x0000000003600000 ∷ 0x00000000037b0000 ∷ 0x0000000003560000 ∷ 0x00000000034d0000
    ∷ 0x00000000030c0000 ∷ 0x0000000003170000 ∷ 0x00000000033a0000 ∷ 0x0000000003210000
    ∷ 0x0000000003b80000 ∷ 0x0000000003a30000 ∷ 0x00000000038e0000 ∷ 0x0000000003950000
    ∷ 0x0000000003d40000 ∷ 0x0000000003cf0000 ∷ 0x0000000003e20000 ∷ 0x0000000003f90000
    ∷ 0x0000000002d00000 ∷ 0x0000000002cb0000 ∷ 0x0000000002e60000 ∷ 0x0000000002fd0000
    ∷ 0x0000000002bc0000 ∷ 0x0000000002a70000 ∷ 0x00000000028a0000 ∷ 0x0000000002910000
    ∷ 0x0000000002080000 ∷ 0x0000000002130000 ∷ 0x00000000023e0000 ∷ 0x0000000002250000
    ∷ 0x0000000002640000 ∷ 0x00000000027f0000 ∷ 0x0000000002520000 ∷ 0x0000000002490000
    ∷ 0x0000000006c00000 ∷ 0x0000000006db0000 ∷ 0x0000000006f60000 ∷ 0x0000000006ed0000
    ∷ 0x0000000006ac0000 ∷ 0x0000000006b70000 ∷ 0x00000000069a0000 ∷ 0x0000000006810000
    ∷ 0x0000000006180000 ∷ 0x0000000006030000 ∷ 0x00000000062e0000 ∷ 0x0000000006350000
    ∷ 0x0000000006740000 ∷ 0x00000000066f0000 ∷ 0x0000000006420000 ∷ 0x0000000006590000
    ∷ 0x0000000007700000 ∷ 0x00000000076b0000 ∷ 0x0000000007460000 ∷ 0x00000000075d0000
    ∷ 0x00000000071c0000 ∷ 0x0000000007070000 ∷ 0x00000000072a0000 ∷ 0x0000000007310000
    ∷ 0x0000000007a80000 ∷ 0x0000000007b30000 ∷ 0x00000000079e0000 ∷ 0x0000000007850000
    ∷ 0x0000000007c40000 ∷ 0x0000000007df0000 ∷ 0x0000000007f20000 ∷ 0x0000000007e90000
    ∷ 0x0000000005a00000 ∷ 0x0000000005bb0000 ∷ 0x0000000005960000 ∷ 0x00000000058d0000
    ∷ 0x0000000005cc0000 ∷ 0x0000000005d70000 ∷ 0x0000000005fa0000 ∷ 0x0000000005e10000
    ∷ 0x0000000005780000 ∷ 0x0000000005630000 ∷ 0x00000000054e0000 ∷ 0x0000000005550000
    ∷ 0x0000000005140000 ∷ 0x00000000050f0000 ∷ 0x0000000005220000 ∷ 0x0000000005390000
    ∷ 0x0000000004100000 ∷ 0x00000000040b0000 ∷ 0x0000000004260000 ∷ 0x00000000043d0000
    ∷ 0x00000000047c0000 ∷ 0x0000000004670000 ∷ 0x00000000044a0000 ∷ 0x0000000004510000
    ∷ 0x0000000004c80000 ∷ 0x0000000004d30000 ∷ 0x0000000004fe0000 ∷ 0x0000000004e50000
    ∷ 0x0000000004a40000 ∷ 0x0000000004bf0000 ∷ 0x0000000004920000 ∷ 0x0000000004890000
    ∷ 0x000000000d800000 ∷ 0x000000000d9b0000 ∷ 0x000000000db60000 ∷ 0x000000000dad0000
    ∷ 0x000000000dec0000 ∷ 0x000000000df70000 ∷ 0x000000000dda0000 ∷ 0x000000000dc10000
    ∷ 0x000000000d580000 ∷ 0x000000000d430000 ∷ 0x000000000d6e0000 ∷ 0x000000000d750000
    ∷ 0x000000000d340000 ∷ 0x000000000d2f0000 ∷ 0x000000000d020000 ∷ 0x000000000d190000
    ∷ 0x000000000c300000 ∷ 0x000000000c2b0000 ∷ 0x000000000c060000 ∷ 0x000000000c1d0000
    ∷ 0x000000000c5c0000 ∷ 0x000000000c470000 ∷ 0x000000000c6a0000 ∷ 0x000000000c710000
    ∷ 0x000000000ce80000 ∷ 0x000000000cf30000 ∷ 0x000000000cde0000 ∷ 0x000000000cc50000
    ∷ 0x000000000c840000 ∷ 0x000000000c9f0000 ∷ 0x000000000cb20000 ∷ 0x000000000ca90000
    ∷ 0x000000000ee00000 ∷ 0x000000000efb0000 ∷ 0x000000000ed60000 ∷ 0x000000000ecd0000
    ∷ 0x000000000e8c0000 ∷ 0x000000000e970000 ∷ 0x000000000eba0000 ∷ 0x000000000ea10000
    ∷ 0x000000000e380000 ∷ 0x000000000e230000 ∷ 0x000000000e0e0000 ∷ 0x000000000e150000
    ∷ 0x000000000e540000 ∷ 0x000000000e4f0000 ∷ 0x000000000e620000 ∷ 0x000000000e790000
    ∷ 0x000000000f500000 ∷ 0x000000000f4b0000 ∷ 0x000000000f660000 ∷ 0x000000000f7d0000
    ∷ 0x000000000f3c0000 ∷ 0x000000000f270000 ∷ 0x000000000f0a0000 ∷ 0x000000000f110000
    ∷ 0x000000000f880000 ∷ 0x000000000f930000 ∷ 0x000000000fbe0000 ∷ 0x000000000fa50000
    ∷ 0x000000000fe40000 ∷ 0x000000000fff0000 ∷ 0x000000000fd20000 ∷ 0x000000000fc90000
    ∷ 0x000000000b400000 ∷ 0x000000000b5b0000 ∷ 0x000000000b760000 ∷ 0x000000000b6d0000
    ∷ 0x000000000b2c0000 ∷ 0x000000000b370000 ∷ 0x000000000b1a0000 ∷ 0x000000000b010000
    ∷ 0x000000000b980000 ∷ 0x000000000b830000 ∷ 0x000000000bae0000 ∷ 0x000000000bb50000
    ∷ 0x000000000bf40000 ∷ 0x000000000bef0000 ∷ 0x000000000bc20000 ∷ 0x000000000bd90000
    ∷ 0x000000000af00000 ∷ 0x000000000aeb0000 ∷ 0x000000000ac60000 ∷ 0x000000000add0000
    ∷ 0x000000000a9c0000 ∷ 0x000000000a870000 ∷ 0x000000000aaa0000 ∷ 0x000000000ab10000
    ∷ 0x000000000a280000 ∷ 0x000000000a330000 ∷ 0x000000000a1e0000 ∷ 0x000000000a050000
    ∷ 0x000000000a440000 ∷ 0x000000000a5f0000 ∷ 0x000000000a720000 ∷ 0x000000000a690000
    ∷ 0x0000000008200000 ∷ 0x00000000083b0000 ∷ 0x0000000008160000 ∷ 0x00000000080d0000
    ∷ 0x00000000084c0000 ∷ 0x0000000008570000 ∷ 0x00000000087a0000 ∷ 0x0000000008610000
    ∷ 0x0000000008f80000 ∷ 0x0000000008e30000 ∷ 0x0000000008ce0000 ∷ 0x0000000008d50000
    ∷ 0x0000000008940000 ∷ 0x00000000088f0000 ∷ 0x0000000008a20000 ∷ 0x0000000008b90000
    ∷ 0x0000000009900000 ∷ 0x00000000098b0000 ∷ 0x0000000009a60000 ∷ 0x0000000009bd0000
    ∷ 0x0000000009fc0000 ∷ 0x0000000009e70000 ∷ 0x0000000009ca0000 ∷ 0x0000000009d10000
    ∷ 0x0000000009480000 ∷ 0x0000000009530000 ∷ 0x00000000097e0000 ∷ 0x0000000009650000
    ∷ 0x0000000009240000 ∷ 0x00000000093f0000 ∷ 0x0000000009120000 ∷ 0x0000000009090000 ∷ []
