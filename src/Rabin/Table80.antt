-- ===== src/Rabin/Table80.antt =====
-- rabin.c, `table80`.
use simvacation.Common.{ℕ, List, [], ◌∷◌}

unfoldable pub table80 : List ℕ
table80 =
    0x0000000000000000 ∷ 0x001b000000000000 ∷ 0x0036000000000000 ∷ 0x002d000000000000
    ∷ 0x006c000000000000 ∷ 0x0077000000000000 ∷ 0x005a000000000000 ∷ 0x0041000000000000
    ∷ 0x00d8000000000000 ∷ 0x00c3000000000000 ∷ 0x00ee000000000000 ∷ 0x00f5000000000000
    ∷ 0x00b4000000000000 ∷ 0x00af000000000000 ∷ 0x0082000000000000 ∷ 0x0099000000000000
    ∷ 0x01b0000000000000 ∷ 0x01ab000000000000 ∷ 0x0186000000000000 ∷ 0x019d000000000000
    ∷ 0x01dc000000000000 ∷ 0x01c7000000000000 ∷ 0x01ea000000000000 ∷ 0x01f1000000000000
    ∷ 0x0168000000000000 ∷ 0x0173000000000000 ∷ 0x015e000000000000 ∷ 0x0145000000000000
    ∷ 0x0104000000000000 ∷ 0x011f000000000000 ∷ 0x0132000000000000 ∷ 0x0129000000000000
    ∷ 0x0360000000000000 ∷ 0x037b000000000000 ∷ 0x0356000000000000 ∷ 0x034d000000000000
    ∷ 0x030c000000000000 ∷ 0x0317000000000000 ∷ 0x033a000000000000 ∷ 0x0321000000000000
    ∷ 0x03b8000000000000 ∷ 0x03a3000000000000 ∷ 0x038e000000000000 ∷ 0x0395000000000000
    ∷ 0x03d4000000000000 ∷ 0x03cf000000000000 ∷ 0x03e2000000000000 ∷ 0x03f9000000000000
    ∷ 0x02d0000000000000 ∷ 0x02cb000000000000 ∷ 0x02e6000000000000 ∷ 0x02fd000000000000
    ∷ 0x02bc000000000000 ∷ 0x02a7000000000000 ∷ 0x028a000000000000 ∷ 0x0291000000000000
    ∷ 0x0208000000000000 ∷ 0x0213000000000000 ∷ 0x023e000000000000 ∷ 0x0225000000000000
    ∷ 0x0264000000000000 ∷ 0x027f000000000000 ∷ 0x0252000000000000 ∷ 0x0249000000000000
    ∷ 0x06c0000000000000 ∷ 0x06db000000000000 ∷ 0x06f6000000000000 ∷ 0x06ed000000000000
    ∷ 0x06ac000000000000 ∷ 0x06b7000000000000 ∷ 0x069a000000000000 ∷ 0x0681000000000000
    ∷ 0x0618000000000000 ∷ 0x0603000000000000 ∷ 0x062e000000000000 ∷ 0x0635000000000000
    ∷ 0x0674000000000000 ∷ 0x066f000000000000 ∷ 0x0642000000000000 ∷ 0x0659000000000000
    ∷ 0x0770000000000000 ∷ 0x076b000000000000 ∷ 0x0746000000000000 ∷ 0x075d000000000000
    ∷ 0x071c000000000000 ∷ 0x0707000000000000 ∷ 0x072a000000000000 ∷ 0x0731000000000000
    ∷ 0x07a8000000000000 ∷ 0x07b3000000000000 ∷ 0x079e000000000000 ∷ 0x0785000000000000
    ∷ 0x07c4000000000000 ∷ 0x07df000000000000 ∷ 0x07f2000000000000 ∷ 0x07e9000000000000
    ∷ 0x05a0000000000000 ∷ 0x05bb000000000000 ∷ 0x0596000000000000 ∷ 0x058d000000000000
    ∷ 0x05cc000000000000 ∷ 0x05d7000000000000 ∷ 0x05fa000000000000 ∷ 0x05e1000000000000
    ∷ 0x0578000000000000 ∷ 0x0563000000000000 ∷ 0x054e000000000000 ∷ 0x0555000000000000
    ∷ 0x0514000000000000 ∷ 0x050f000000000000 ∷ 0x0522000000000000 ∷ 0x0539000000000000
    ∷ 0x0410000000000000 ∷ 0x040b000000000000 ∷ 0x0426000000000000 ∷ 0x043d000000000000
    ∷ 0x047c000000000000 ∷ 0x0467000000000000 ∷ 0x044a000000000000 ∷ 0x0451000000000000
    ∷ 0x04c8000000000000 ∷ 0x04d3000000000000 ∷ 0x04fe000000000000 ∷ 0x04e5000000000000
    ∷ 0x04a4000000000000 ∷ 0x04bf000000000000 ∷ 0x0492000000000000 ∷ 0x0489000000000000
    ∷ 0x0d80000000000000 ∷ 0x0d9b000000000000 ∷ 0x0db6000000000000 ∷ 0x0dad000000000000
    ∷ 0x0dec000000000000 ∷ 0x0df7000000000000 ∷ 0x0dda000000000000 ∷ 0x0dc1000000000000
    ∷ 0x0d58000000000000 ∷ 0x0d43000000000000 ∷ 0x0d6e000000000000 ∷ 0x0d75000000000000
    ∷ 0x0d34000000000000 ∷ 0x0d2f000000000000 ∷ 0x0d02000000000000 ∷ 0x0d19000000000000
    ∷ 0x0c30000000000000 ∷ 0x0c2b000000000000 ∷ 0x0c06000000000000 ∷ 0x0c1d000000000000
    ∷ 0x0c5c000000000000 ∷ 0x0c47000000000000 ∷ 0x0c6a000000000000 ∷ 0x0c71000000000000
    ∷ 0x0ce8000000000000 ∷ 0x0cf3000000000000 ∷ 0x0cde000000000000 ∷ 0x0cc5000000000000
    ∷ 0x0c84000000000000 ∷ 0x0c9f000000000000 ∷ 0x0cb2000000000000 ∷ 0x0ca9000000000000
    ∷ 0x0ee0000000000000 ∷ 0x0efb000000000000 ∷ 0x0ed6000000000000 ∷ 0x0ecd000000000000
    ∷ 0x0e8c000000000000 ∷ 0x0e97000000000000 ∷ 0x0eba000000000000 ∷ 0x0ea1000000000000
    ∷ 0x0e38000000000000 ∷ 0x0e23000000000000 ∷ 0x0e0e000000000000 ∷ 0x0e15000000000000
    ∷ 0x0e54000000000000 ∷ 0x0e4f000000000000 ∷ 0x0e62000000000000 ∷ 0x0e79000000000000
    ∷ 0x0f50000000000000 ∷ 0x0f4b000000000000 ∷ 0x0f66000000000000 ∷ 0x0f7d000000000000
    ∷ 0x0f3c000000000000 ∷ 0x0f27000000000000 ∷ 0x0f0a000000000000 ∷ 0x0f11000000000000
    ∷ 0x0f88000000000000 ∷ 0x0f93000000000000 ∷ 0x0fbe000000000000 ∷ 0x0fa5000000000000
    ∷ 0x0fe4000000000000 ∷ 0x0fff000000000000 ∷ 0x0fd2000000000000 ∷ 0x0fc9000000000000
    ∷ 0x0b40000000000000 ∷ 0x0b5b000000000000 ∷ 0x0b76000000000000 ∷ 0x0b6d000000000000
    ∷ 0x0b2c000000000000 ∷ 0x0b37000000000000 ∷ 0x0b1a000000000000 ∷ 0x0b01000000000000
    ∷ 0x0b98000000000000 ∷ 0x0b83000000000000 ∷ 0x0bae000000000000 ∷ 0x0bb5000000000000
    ∷ 0x0bf4000000000000 ∷ 0x0bef000000000000 ∷ 0x0bc2000000000000 ∷ 0x0bd9000000000000
    ∷ 0x0af0000000000000 ∷ 0x0aeb000000000000 ∷ 0x0ac6000000000000 ∷ 0x0add000000000000
    ∷ 0x0a9c000000000000 ∷ 0x0a87000000000000 ∷ 0x0aaa000000000000 ∷ 0x0ab1000000000000
    ∷ 0x0a28000000000000 ∷ 0x0a33000000000000 ∷ 0x0a1e000000000000 ∷ 0x0a05000000000000
    ∷ 0x0a44000000000000 ∷ 0x0a5f000000000000 ∷ 0x0a72000000000000 ∷ 0x0a69000000000000
    ∷ 0x0820000000000000 ∷ 0x083b000000000000 ∷ 0x0816000000000000 ∷ 0x080d000000000000
    ∷ 0x084c000000000000 ∷ 0x0857000000000000 ∷ 0x087a000000000000 ∷ 0x0861000000000000
    ∷ 0x08f8000000000000 ∷ 0x08e3000000000000 ∷ 0x08ce000000000000 ∷ 0x08d5000000000000
    ∷ 0x0894000000000000 ∷ 0x088f000000000000 ∷ 0x08a2000000000000 ∷ 0x08b9000000000000
    ∷ 0x0990000000000000 ∷ 0x098b000000000000 ∷ 0x09a6000000000000 ∷ 0x09bd000000000000
    ∷ 0x09fc000000000000 ∷ 0x09e7000000000000 ∷ 0x09ca000000000000 ∷ 0x09d1000000000000
    ∷ 0x0948000000000000 ∷ 0x0953000000000000 ∷ 0x097e000000000000 ∷ 0x0965000000000000
    ∷ 0x0924000000000000 ∷ 0x093f000000000000 ∷ 0x0912000000000000 ∷ 0x0909000000000000 ∷ []
