-- ===== src/Rabin/Table88.antt =====
-- rabin.c, `table88`.
use simvacation.Common.{ℕ, List, [], ◌∷◌}

unfoldable pub table88 : List ℕ
table88 =
    0x0000000000000000 ∷ 0x1b00000000000000 ∷ 0x3600000000000000 ∷ 0x2d00000000000000
    ∷ 0x6c00000000000000 ∷ 0x7700000000000000 ∷ 0x5a00000000000000 ∷ 0x4100000000000000
    ∷ 0xd800000000000000 ∷ 0xc300000000000000 ∷ 0xee00000000000000 ∷ 0xf500000000000000
    ∷ 0xb400000000000000 ∷ 0xaf00000000000000 ∷ 0x8200000000000000 ∷ 0x9900000000000000
    ∷ 0xb00000000000001b ∷ 0xab0000000000001b ∷ 0x860000000000001b ∷ 0x9d0000000000001b
    ∷ 0xdc0000000000001b ∷ 0xc70000000000001b ∷ 0xea0000000000001b ∷ 0xf10000000000001b
    ∷ 0x680000000000001b ∷ 0x730000000000001b ∷ 0x5e0000000000001b ∷ 0x450000000000001b
    ∷ 0x040000000000001b ∷ 0x1f0000000000001b ∷ 0x320000000000001b ∷ 0x290000000000001b
    ∷ 0x600000000000002d ∷ 0x7b0000000000002d ∷ 0x560000000000002d ∷ 0x4d0000000000002d
    ∷ 0x0c0000000000002d ∷ 0x170000000000002d ∷ 0x3a0000000000002d ∷ 0x210000000000002d
    ∷ 0xb80000000000002d ∷ 0xa30000000000002d ∷ 0x8e0000000000002d ∷ 0x950000000000002d
    ∷ 0xd40000000000002d ∷ 0xcf0000000000002d ∷ 0xe20000000000002d ∷ 0xf90000000000002d
    ∷ 0xd000000000000036 ∷ 0xcb00000000000036 ∷ 0xe600000000000036 ∷ 0xfd00000000000036
    ∷ 0xbc00000000000036 ∷ 0xa700000000000036 ∷ 0x8a00000000000036 ∷ 0x9100000000000036
    ∷ 0x0800000000000036 ∷ 0x1300000000000036 ∷ 0x3e00000000000036 ∷ 0x2500000000000036
    ∷ 0x6400000000000036 ∷ 0x7f00000000000036 ∷ 0x5200000000000036 ∷ 0x4900000000000036
    ∷ 0xc00000000000005a ∷ 0xdb0000000000005a ∷ 0xf60000000000005a ∷ 0xed0000000000005a
    ∷ 0xac0000000000005a ∷ 0xb70000000000005a ∷ 0x9a0000000000005a ∷ 0x810000000000005a
    ∷ 0x180000000000005a ∷ 0x030000000000005a ∷ 0x2e0000000000005a ∷ 0x350000000000005a
    ∷ 0x740000000000005a ∷ 0x6f0000000000005a ∷ 0x420000000000005a ∷ 0x590000000000005a
    ∷ 0x7000000000000041 ∷ 0x6b00000000000041 ∷ 0x4600000000000041 ∷ 0x5d00000000000041
    ∷ 0x1c00000000000041 ∷ 0x0700000000000041 ∷ 0x2a00000000000041 ∷ 0x3100000000000041
    ∷ 0xa800000000000041 ∷ 0xb300000000000041 ∷ 0x9e00000000000041 ∷ 0x8500000000000041
    ∷ 0xc400000000000041 ∷ 0xdf00000000000041 ∷ 0xf200000000000041 ∷ 0xe900000000000041
    ∷ 0xa000000000000077 ∷ 0xbb00000000000077 ∷ 0x9600000000000077 ∷ 0x8d00000000000077
    ∷ 0xcc00000000000077 ∷ 0xd700000000000077 ∷ 0xfa00000000000077 ∷ 0xe100000000000077
    ∷ 0x7800000000000077 ∷ 0x6300000000000077 ∷ 0x4e00000000000077 ∷ 0x5500000000000077
    ∷ 0x1400000000000077 ∷ 0x0f00000000000077 ∷ 0x2200000000000077 ∷ 0x3900000000000077
    ∷ 0x100000000000006c ∷ 0x0b0000000000006c ∷ 0x260000000000006c ∷ 0x3d0000000000006c
    ∷ 0x7c0000000000006c ∷ 0x670000000000006c ∷ 0x4a0000000000006c ∷ 0x510000000000006c
    ∷ 0xc80000000000006c ∷ 0xd30000000000006c ∷ 0xfe0000000000006c ∷ 0xe50000000000006c
    ∷ 0xa40000000000006c ∷ 0xbf0000000000006c ∷ 0x920000000000006c ∷ 0x890000000000006c
    ∷ 0x80000000000000af ∷ 0x9b000000000000af ∷ 0xb6000000000000af ∷ 0xad000000000000af
    ∷ 0xec000000000000af ∷ 0xf7000000000000af ∷ 0xda000000000000af ∷ 0xc1000000000000af
    ∷ 0x58000000000000af ∷ 0x43000000000000af ∷ 0x6e000000000000af ∷ 0x75000000000000af
    ∷ 0x34000000000000af ∷ 0x2f000000000000af ∷ 0x02000000000000af ∷ 0x19000000000000af
    ∷ 0x30000000000000b4 ∷ 0x2b000000000000b4 ∷ 0x06000000000000b4 ∷ 0x1d000000000000b4
    ∷ 0x5c000000000000b4 ∷ 0x47000000000000b4 ∷ 0x6a000000000000b4 ∷ 0x71000000000000b4
    ∷ 0xe8000000000000b4 ∷ 0xf3000000000000b4 ∷ 0xde000000000000b4 ∷ 0xc5000000000000b4
    ∷ 0x84000000000000b4 ∷ 0x9f000000000000b4 ∷ 0xb2000000000000b4 ∷ 0xa9000000000000b4
    ∷ 0xe000000000000082 ∷ 0xfb00000000000082 ∷ 0xd600000000000082 ∷ 0xcd00000000000082
    ∷ 0x8c00000000000082 ∷ 0x9700000000000082 ∷ 0xba00000000000082 ∷ 0xa100000000000082
    ∷ 0x3800000000000082 ∷ 0x2300000000000082 ∷ 0x0e00000000000082 ∷ 0x1500000000000082
    ∷ 0x5400000000000082 ∷ 0x4f00000000000082 ∷ 0x6200000000000082 ∷ 0x7900000000000082
    ∷ 0x5000000000000099 ∷ 0x4b00000000000099 ∷ 0x6600000000000099 ∷ 0x7d00000000000099
    ∷ 0x3c00000000000099 ∷ 0x2700000000000099 ∷ 0x0a00000000000099 ∷ 0x1100000000000099
    ∷ 0x8800000000000099 ∷ 0x9300000000000099 ∷ 0xbe00000000000099 ∷ 0xa500000000000099
    ∷ 0xe400000000000099 ∷ 0xff00000000000099 ∷ 0xd200000000000099 ∷ 0xc900000000000099
    ∷ 0x40000000000000f5 ∷ 0x5b000000000000f5 ∷ 0x76000000000000f5 ∷ 0x6d000000000000f5
    ∷ 0x2c000000000000f5 ∷ 0x37000000000000f5 ∷ 0x1a000000000000f5 ∷ 0x01000000000000f5
    ∷ 0x98000000000000f5 ∷ 0x83000000000000f5 ∷ 0xae000000000000f5 ∷ 0xb5000000000000f5
    ∷ 0xf4000000000000f5 ∷ 0xef000000000000f5 ∷ 0xc2000000000000f5 ∷ 0xd9000000000000f5
    ∷ 0xf0000000000000ee ∷ 0xeb000000000000ee ∷ 0xc6000000000000ee ∷ 0xdd000000000000ee
    ∷ 0x9c000000000000ee ∷ 0x87000000000000ee ∷ 0xaa000000000000ee ∷ 0xb1000000000000ee
    ∷ 0x28000000000000ee ∷ 0x33000000000000ee ∷ 0x1e000000000000ee ∷ 0x05000000000000ee
    ∷ 0x44000000000000ee ∷ 0x5f000000000000ee ∷ 0x72000000000000ee ∷ 0x69000000000000ee
    ∷ 0x20000000000000d8 ∷ 0x3b000000000000d8 ∷ 0x16000000000000d8 ∷ 0x0d000000000000d8
    ∷ 0x4c000000000000d8 ∷ 0x57000000000000d8 ∷ 0x7a000000000000d8 ∷ 0x61000000000000d8
    ∷ 0xf8000000000000d8 ∷ 0xe3000000000000d8 ∷ 0xce000000000000d8 ∷ 0xd5000000000000d8
    ∷ 0x94000000000000d8 ∷ 0x8f000000000000d8 ∷ 0xa2000000000000d8 ∷ 0xb9000000000000d8
    ∷ 0x90000000000000c3 ∷ 0x8b000000000000c3 ∷ 0xa6000000000000c3 ∷ 0xbd000000000000c3
    ∷ 0xfc000000000000c3 ∷ 0xe7000000000000c3 ∷ 0xca000000000000c3 ∷ 0xd1000000000000c3
    ∷ 0x48000000000000c3 ∷ 0x53000000000000c3 ∷ 0x7e000000000000c3 ∷ 0x65000000000000c3
    ∷ 0x24000000000000c3 ∷ 0x3f000000000000c3 ∷ 0x12000000000000c3 ∷ 0x09000000000000c3 ∷ []
