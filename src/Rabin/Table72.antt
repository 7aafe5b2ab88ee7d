-- ===== src/Rabin/Table72.antt =====
-- rabin.c, `table72`.
use simvacation.Common.{ℕ, List, [], ◌∷◌}

unfoldable pub table72 : List ℕ
table72 =
    0x0000000000000000 ∷ 0x00001b0000000000 ∷ 0x0000360000000000 ∷ 0x00002d0000000000
    ∷ 0x00006c0000000000 ∷ 0x0000770000000000 ∷ 0x00005a0000000000 ∷ 0x0000410000000000
    ∷ 0x0000d80000000000 ∷ 0x0000c30000000000 ∷ 0x0000ee0000000000 ∷ 0x0000f50000000000
    ∷ 0x0000b40000000000 ∷ 0x0000af0000000000 ∷ 0x0000820000000000 ∷ 0x0000990000000000
    ∷ 0x0001b00000000000 ∷ 0x0001ab0000000000 ∷ 0x0001860000000000 ∷ 0x00019d0000000000
    ∷ 0x0001dc0000000000 ∷ 0x0001c70000000000 ∷ 0x0001ea0000000000 ∷ 0x0001f10000000000
    ∷ 0x0001680000000000 ∷ 0x0001730000000000 ∷ 0x00015e0000000000 ∷ 0x0001450000000000
    ∷ 0x0001040000000000 ∷ 0x00011f0000000000 ∷ 0x0001320000000000 ∷ 0x0001290000000000
    ∷ 0x0003600000000000 ∷ 0x00037b0000000000 ∷ 0x0003560000000000 ∷ 0x00034d0000000000
    ∷ 0x00030c0000000000 ∷ 0x0003170000000000 ∷ 0x00033a0000000000 ∷ 0x0003210000000000
    ∷ 0x0003b80000000000 ∷ 0x0003a30000000000 ∷ 0x00038e0000000000 ∷ 0x0003950000000000
    ∷ 0x0003d40000000000 ∷ 0x0003cf0000000000 ∷ 0x0003e20000000000 ∷ 0x0003f90000000000
    ∷ 0x0002d00000000000 ∷ 0x0002cb0000000000 ∷ 0x0002e60000000000 ∷ 0x0002fd0000000000
    ∷ 0x0002bc0000000000 ∷ 0x0002a70000000000 ∷ 0x00028a0000000000 ∷ 0x0002910000000000
    ∷ 0x0002080000000000 ∷ 0x0002130000000000 ∷ 0x00023e0000000000 ∷ 0x0002250000000000
    ∷ 0x0002640000000000 ∷ 0x00027f0000000000 ∷ 0x0002520000000000 ∷ 0x0002490000000000
    ∷ 0x0006c00000000000 ∷ 0x0006db0000000000 ∷ 0x0006f60000000000 ∷ 0x0006ed0000000000
    ∷ 0x0006ac0000000000 ∷ 0x0006b70000000000 ∷ 0x00069a0000000000 ∷ 0x0006810000000000
    ∷ 0x0006180000000000 ∷ 0x0006030000000000 ∷ 0x00062e0000000000 ∷ 0x0006350000000000
    ∷ 0x0006740000000000 ∷ 0x00066f0000000000 ∷ 0x0006420000000000 ∷ 0x0006590000000000
    ∷ 0x0007700000000000 ∷ 0x00076b0000000000 ∷ 0x0007460000000000 ∷ 0x00075d0000000000
    ∷ 0x00071c0000000000 ∷ 0x0007070000000000 ∷ 0x00072a0000000000 ∷ 0x0007310000000000
    ∷ 0x0007a80000000000 ∷ 0x0007b30000000000 ∷ 0x00079e0000000000 ∷ 0x0007850000000000
    ∷ 0x0007c40000000000 ∷ 0x0007df0000000000 ∷ 0x0007f20000000000 ∷ 0x0007e90000000000
    ∷ 0x0005a00000000000 ∷ 0x0005bb0000000000 ∷ 0x0005960000000000 ∷ 0x00058d0000000000
    ∷ 0x0005cc0000000000 ∷ 0x0005d70000000000 ∷ 0x0005fa0000000000 ∷ 0x0005e10000000000
    ∷ 0x0005780000000000 ∷ 0x0005630000000000 ∷ 0x00054e0000000000 ∷ 0x0005550000000000
    ∷ 0x0005140000000000 ∷ 0x00050f0000000000 ∷ 0x0005220000000000 ∷ 0x0005390000000000
    ∷ 0x0004100000000000 ∷ 0x00040b0000000000 ∷ 0x0004260000000000 ∷ 0x00043d0000000000
    ∷ 0x00047c0000000000 ∷ 0x0004670000000000 ∷ 0x00044a0000000000 ∷ 0x0004510000000000
    ∷ 0x0004c80000000000 ∷ 0x0004d30000000000 ∷ 0x0004fe0000000000 ∷ 0x0004e50000000000
    ∷ 0x0004a40000000000 ∷ 0x0004bf0000000000 ∷ 0x0004920000000000 ∷ 0x0004890000000000
    ∷ 0x000d800000000000 ∷ 0x000d9b0000000000 ∷ 0x000db60000000000 ∷ 0x000dad0000000000
    ∷ 0x000dec0000000000 ∷ 0x000df70000000000 ∷ 0x000dda0000000000 ∷ 0x000dc10000000000
    ∷ 0x000d580000000000 ∷ 0x000d430000000000 ∷ 0x000d6e0000000000 ∷ 0x000d750000000000
    ∷ 0x000d340000000000 ∷ 0x000d2f0000000000 ∷ 0x000d020000000000 ∷ 0x000d190000000000
    ∷ 0x000c300000000000 ∷ 0x000c2b0000000000 ∷ 0x000c060000000000 ∷ 0x000c1d0000000000
    ∷ 0x000c5c0000000000 ∷ 0x000c470000000000 ∷ 0x000c6a0000000000 ∷ 0x000c710000000000
    ∷ 0x000ce80000000000 ∷ 0x000cf30000000000 ∷ 0x000cde0000000000 ∷ 0x000cc50000000000
    ∷ 0x000c840000000000 ∷ 0x000c9f0000000000 ∷ 0x000cb20000000000 ∷ 0x000ca90000000000
    ∷ 0x000ee00000000000 ∷ 0x000efb0000000000 ∷ 0x000ed60000000000 ∷ 0x000ecd0000000000
    ∷ 0x000e8c0000000000 ∷ 0x000e970000000000 ∷ 0x000eba0000000000 ∷ 0x000ea10000000000
    ∷ 0x000e380000000000 ∷ 0x000e230000000000 ∷ 0x000e0e0000000000 ∷ 0x000e150000000000
    ∷ 0x000e540000000000 ∷ 0x000e4f0000000000 ∷ 0x000e620000000000 ∷ 0x000e790000000000
    ∷ 0x000f500000000000 ∷ 0x000f4b0000000000 ∷ 0x000f660000000000 ∷ 0x000f7d0000000000
    ∷ 0x000f3c0000000000 ∷ 0x000f270000000000 ∷ 0x000f0a0000000000 ∷ 0x000f110000000000
    ∷ 0x000f880000000000 ∷ 0x000f930000000000 ∷ 0x000fbe0000000000 ∷ 0x000fa50000000000
    ∷ 0x000fe40000000000 ∷ 0x000fff0000000000 ∷ 0x000fd20000000000 ∷ 0x000fc90000000000
    ∷ 0x000b400000000000 ∷ 0x000b5b0000000000 ∷ 0x000b760000000000 ∷ 0x000b6d0000000000
    ∷ 0x000b2c0000000000 ∷ 0x000b370000000000 ∷ 0x000b1a0000000000 ∷ 0x000b010000000000
    ∷ 0x000b980000000000 ∷ 0x000b830000000000 ∷ 0x000bae0000000000 ∷ 0x000bb50000000000
    ∷ 0x000bf40000000000 ∷ 0x000bef0000000000 ∷ 0x000bc20000000000 ∷ 0x000bd90000000000
    ∷ 0x000af00000000000 ∷ 0x000aeb0000000000 ∷ 0x000ac60000000000 ∷ 0x000add0000000000
    ∷ 0x000a9c0000000000 ∷ 0x000a870000000000 ∷ 0x000aaa0000000000 ∷ 0x000ab10000000000
    ∷ 0x000a280000000000 ∷ 0x000a330000000000 ∷ 0x000a1e0000000000 ∷ 0x000a050000000000
    ∷ 0x000a440000000000 ∷ 0x000a5f0000000000 ∷ 0x000a720000000000 ∷ 0x000a690000000000
    ∷ 0x0008200000000000 ∷ 0x00083b0000000000 ∷ 0x0008160000000000 ∷ 0x00080d0000000000
    ∷ 0x00084c0000000000 ∷ 0x0008570000000000 ∷ 0x00087a0000000000 ∷ 0x0008610000000000
    ∷ 0x0008f80000000000 ∷ 0x0008e30000000000 ∷ 0x0008ce0000000000 ∷ 0x0008d50000000000
    ∷ 0x0008940000000000 ∷ 0x00088f0000000000 ∷ 0x0008a20000000000 ∷ 0x0008b90000000000
    ∷ 0x0009900000000000 ∷ 0x00098b0000000000 ∷ 0x0009a60000000000 ∷ 0x0009bd0000000000
    ∷ 0x0009fc0000000000 ∷ 0x0009e70000000000 ∷ 0x0009ca0000000000 ∷ 0x0009d10000000000
    ∷ 0x0009480000000000 ∷ 0x0009530000000000 ∷ 0x00097e0000000000 ∷ 0x0009650000000000
    ∷ 0x0009240000000000 ∷ 0x00093f0000000000 ∷ 0x0009120000000000 ∷ 0x0009090000000000 ∷ []
