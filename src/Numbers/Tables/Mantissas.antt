-- ===== src/Numbers/Tables/Mantissas.antt =====
-- src/numberparse/correct/numberconst.rs: `MANTISSA_128`, in stretches.
use simd_toon_improved.Base.{ℕ, List, [], ◌∷◌}

abbrev pub mantissas_0 : List ℕ
mantissas_0 =
    0x419ea3bd35385e2d ∷ 0x52064cac828675b9 ∷ 0x7343efebd1940993 ∷ 0x1014ebe6c5f90bf8
    ∷ 0xd41a26e077774ef6 ∷ 0x8920b098955522b4 ∷ 0x55b46e5f5d5535b0 ∷ 0xeb2189f734aa831d
    ∷ 0xa5e9ec7501d523e4 ∷ 0x47b233c92125366e ∷ 0x999ec0bb696e840a ∷ 0xc00670ea43ca250d
    ∷ 0x380406926a5e5728 ∷ 0xc605083704f5ecf2 ∷ 0xf7864a44c633682e ∷ 0x7ab3ee6afbe0211d
    ∷ 0x5960ea05bad82964 ∷ 0x6fb92487298e33bd ∷ 0xa5d3b6d479f8e056 ∷ 0x8f48a4899877186c
    ∷ 0x331acdabfe94de87 ∷ 0x9ff0c08b7f1d0b14 ∷ 0x7ecf0ae5ee44dd9 ∷ 0xc9e82cd9f69d6150
    ∷ 0xbe311c083a225cd2 ∷ 0x6dbd630a48aaf406 ∷ 0x92cbbccdad5b108 ∷ 0x25bbf56008c58ea5
    ∷ 0xaf2af2b80af6f24e ∷ 0x1af5af660db4aee1 ∷ 0x50d98d9fc890ed4d ∷ 0xe50ff107bab528a0
    ∷ 0x1e53ed49a96272c8 ∷ 0x25e8e89c13bb0f7a ∷ 0x77b191618c54e9ac ∷ 0xd59df5b9ef6a2417
    ∷ 0x4b0573286b44ad1d ∷ 0x4ee367f9430aec32 ∷ 0x229c41f793cda73f ∷ 0x6b43527578c1110f
    ∷ 0x830a13896b78aaa9 ∷ 0x23cc986bc656d553 ∷ 0x2cbfbe86b7ec8aa8 ∷ 0x7bf7d71432f3d6a9
    ∷ 0xdaf5ccd93fb0cc53 ∷ 0xd1b3400f8f9cff68 ∷ 0x23100809b9c21fa1 ∷ 0xabd40a0c2832a78a
    ∷ 0x16c90c8f323f516c ∷ 0xae3da7d97f6792e3 ∷ 0x99cd11cfdf41779c ∷ 0x40405643d711d583
    ∷ 0x482835ea666b2572 ∷ 0xda3243650005eecf ∷ 0x90bed43e40076a82 ∷ 0x5a7744a6e804a291
    ∷ 0x711515d0a205cb36 ∷ 0xd5a5b44ca873e03 ∷ 0xe858790afe9486c2 ∷ 0x626e974dbe39a872
    ∷ 0xfb0a3d212dc8128f ∷ 0x7ce66634bc9d0b99 ∷ 0x1c1fffc1ebc44e80 ∷ 0xa327ffb266b56220
    ∷ 0x4bf1ff9f0062baa8 ∷ 0x6f773fc3603db4a9 ∷ 0xcb550fb4384d21d3 ∷ 0x7e2a53a146606a48
    ∷ 0x2eda7444cbfc426d ∷ 0xfa911155fefb5308 ∷ 0x793555ab7eba27ca ∷ 0x4bc1558b2f3458de
    ∷ 0x9eb1aaedfb016f16 ∷ 0x465e15a979c1cadc ∷ 0xbfacd89ec191ec9 ∷ 0xcef980ec671f667b
    ∷ 0x82b7e12780e7401a ∷ 0xd1b2ecb8b0908810 ∷ 0x861fa7e6dcb4aa15 ∷ 0x67a791e093e1d49a
    ∷ 0xe0c8bb2c5c6d24e0 ∷ 0x58fae9f773886e18 ∷ 0xaf39a475506a899e ∷ 0x6d8406c952429603
    ∷ 0xc8e5087ba6d33b83 ∷ 0xfb1e4a9a90880a64 ∷ 0x5cf2eea09a55067f ∷ 0xf42faa48c0ea481e
    ∷ 0xf13b94daf124da26 ∷ 0x76c53d08d6b70858 ∷ 0x54768c4b0c64ca6e ∷ 0xa9942f5dcf7dfd09
    ∷ 0xd3f93b35435d7c4c ∷ 0xc47bc5014a1a6daf ∷ 0x359ab6419ca1091b ∷ 0xc30163d203c94b62
    ∷ 0x79e0de63425dcf1d ∷ 0x985915fc12f542e4 ∷ 0x3e6f5b7b17b2939d ∷ 0xa705992ceecf9c42
    ∷ 0x50c6ff782a838353 ∷ 0xa4f8bf5635246428 ∷ 0x871b7795e136be99 ∷ 0x28e2557b59846e3f
    ∷ 0x331aeada2fe589cf ∷ 0x3ff0d2c85def7621 ∷ 0xfed077a756b53a9 ∷ 0xd3e8495912c62894
    ∷ 0x64712dd7abbbd95c ∷ 0xbd8d794d96aacfb3 ∷ 0xecf0d7a0fc5583a0 ∷ 0xf41686c49db57244
    ∷ 0x311c2875c522ced5 ∷ 0x7d633293366b828b ∷ 0xae5dff9c02033197 ∷ 0xd9f57f830283fdfc
    ∷ 0xd072df63c324fd7b ∷ 0x4247cb9e59f71e6d ∷ 0x52d9be85f074e608 ∷ 0x67902e276c921f8b
    ∷ 0xba1cd8a3db53b6 ∷ 0x80e8a40eccd228a4 ∷ 0x6122cd128006b2cd ∷ 0x796b805720085f81
    ∷ 0xcbe3303674053bb0 ∷ 0xbedbfc4411068a9c ∷ 0xee92fb5515482d44 ∷ []

abbrev pub mantissas_1 : List ℕ
mantissas_1 =
    0x751bdd152d4d1c4a ∷ 0xd262d45a78a0635d ∷ 0x86fb897116c87c34 ∷ 0xd45d35e6ae3d4da0
    ∷ 0x8974836059cca109 ∷ 0x2bd1a438703fc94b ∷ 0x7b6306a34627ddcf ∷ 0x1a3bc84c17b1d542
    ∷ 0x20caba5f1d9e4a93 ∷ 0x547eb47b7282ee9c ∷ 0xe99e619a4f23aa43 ∷ 0x6405fa00e2ec94d4
    ∷ 0xde83bc408dd3dd04 ∷ 0x9624ab50b148d445 ∷ 0x3badd624dd9b0957 ∷ 0xe54ca5d70a80e5d6
    ∷ 0x5e9fcf4ccd211f4c ∷ 0x7647c3200069671f ∷ 0x29ecd9f40041e073 ∷ 0xf468107100525890
    ∷ 0x7182148d4066eeb4 ∷ 0xc6f14cd848405530 ∷ 0xb8ada00e5a506a7c ∷ 0xa6d90811f0e4851c
    ∷ 0x908f4a166d1da663 ∷ 0x9a598e4e043287fe ∷ 0x40eff1e1853f29fd ∷ 0xd12bee59e68ef47c
    ∷ 0x82bb74f8301958ce ∷ 0xe36a52363c1faf01 ∷ 0xdc44e6c3cb279ac1 ∷ 0x29ab103a5ef8c0b9
    ∷ 0x7415d448f6b6f0e7 ∷ 0x111b495b3464ad21 ∷ 0xcab10dd900beec34 ∷ 0x3d5d514f40eea742
    ∷ 0xcb4a5a3112a5112 ∷ 0x47f0e785eaba72ab ∷ 0x59ed216765690f56 ∷ 0x306869c13ec3532c
    ∷ 0x1e414218c73a13fb ∷ 0xe5d1929ef90898fa ∷ 0xdf45f746b74abf39 ∷ 0x6b8bba8c328eb783
    ∷ 0x66ea92f3f326564 ∷ 0xc80a537b0efefebd ∷ 0xbd06742ce95f5f36 ∷ 0x2c48113823b73704
    ∷ 0xf75a15862ca504c5 ∷ 0x9a984d73dbe722fb ∷ 0xc13e60d0d2e0ebba ∷ 0x318df905079926a8
    ∷ 0xfdf17746497f7052 ∷ 0xfeb6ea8bedefa633 ∷ 0xfe64a52ee96b8fc0 ∷ 0x3dfdce7aa3c673b0
    ∷ 0x6bea10ca65c084e ∷ 0x486e494fcff30a62 ∷ 0x5a89dba3c3efccfa ∷ 0xf89629465a75e01c
    ∷ 0xf6bbb397f1135823 ∷ 0x746aa07ded582e2c ∷ 0xa8c2a44eb4571cdc ∷ 0x92f34d62616ce413
    ∷ 0x77b020baf9c81d17 ∷ 0xace1474dc1d122e ∷ 0xd819992132456ba ∷ 0x10e1fff697ed6c69
    ∷ 0xca8d3ffa1ef463c1 ∷ 0xbd308ff8a6b17cb2 ∷ 0xac7cb3f6d05ddbde ∷ 0x6bcdf07a423aa96b
    ∷ 0x86c16c98d2c953c6 ∷ 0xe871c7bf077ba8b7 ∷ 0x11471cd764ad4972 ∷ 0xd598e40d3dd89bcf
    ∷ 0x4aff1d108d4ec2c3 ∷ 0xcedf722a585139ba ∷ 0xc2974eb4ee658828 ∷ 0x733d226229feea32
    ∷ 0x806357d5a3f525f ∷ 0xca07c2dcb0cf26f7 ∷ 0xfc89b393dd02f0b5 ∷ 0xbbac2078d443ace2
    ∷ 0xd54b944b84aa4c0d ∷ 0xa9e795e65d4df11 ∷ 0x4d4617b5ff4a16d5 ∷ 0x504bced1bf8e4e45
    ∷ 0xe45ec2862f71e1d6 ∷ 0x5d767327bb4e5a4c ∷ 0x3a6a07f8d510f86f ∷ 0x890489f70a55368b
    ∷ 0x2b45ac74ccea842e ∷ 0x3b0b8bc90012929d ∷ 0x9ce6ebb40173744 ∷ 0xcc420a6a101d0515
    ∷ 0x9fa946824a12232d ∷ 0x47939822dc96abf9 ∷ 0x59787e2b93bc56f7 ∷ 0x57eb4edb3c55b65a
    ∷ 0xede622920b6b23f1 ∷ 0xe95fab368e45eced ∷ 0x11dbcb0218ebb414 ∷ 0xd652bdc29f26a119
    ∷ 0x4be76d3346f0495f ∷ 0x6f70a4400c562ddb ∷ 0xcb4ccd500f6bb952 ∷ 0x7e2000a41346a7a7
    ∷ 0x8ed400668c0c28c8 ∷ 0x728900802f0f32fa ∷ 0x4f2b40a03ad2ffb9 ∷ 0xe2f610c84987bfa8
    ∷ 0xdd9ca7d2df4d7c9 ∷ 0x91503d1c79720dbb ∷ 0x75a44c6397ce912a ∷ 0xc986afbe3ee11aba
    ∷ 0xfbe85badce996168 ∷ 0xfae27299423fb9c3 ∷ 0xdccd879fc967d41a ∷ 0x5400e987bbc1c920
    ∷ 0x290123e9aab23b68 ∷ 0xf9a0b6720aaf6521 ∷ 0xf808e40e8d5b3e69 ∷ 0xb60b1d1230b20e04
    ∷ 0xb1c6f22b5e6f48c2 ∷ 0x1e38aeb6360b1af3 ∷ 0x25c6da63c38de1b0 ∷ []

abbrev pub mantissas_2 : List ℕ
mantissas_2 =
    0x579c487e5a38ad0e ∷ 0x2d835a9df0c6d851 ∷ 0xf8e431456cf88e65 ∷ 0x1b8e9ecb641b58ff
    ∷ 0xe272467e3d222f3f ∷ 0x5b0ed81dcc6abb0f ∷ 0x98e947129fc2b4e9 ∷ 0x3f2398d747b36224
    ∷ 0x8eec7f0d19a03aad ∷ 0x1953cf68300424ac ∷ 0x5fa8c3423c052dd7 ∷ 0x3792f412cb06794d
    ∷ 0xe2bbd88bbee40bd0 ∷ 0x5b6aceaeae9d0ec4 ∷ 0xf245825a5a445275 ∷ 0xeed6e2f0f0d56712
    ∷ 0x55464dd69685606b ∷ 0xaa97e14c3c26b886 ∷ 0xd53dd99f4b3066a8 ∷ 0xe546a8038efe4029
    ∷ 0xde98520472bdd033 ∷ 0x963e66858f6d4440 ∷ 0xdde7001379a44aa8 ∷ 0x5560c018580d5d52
    ∷ 0xaab8f01e6e10b4a6 ∷ 0xcab3961304ca70e8 ∷ 0x3d607b97c5fd0d22 ∷ 0x8cb89a7db77c506a
    ∷ 0x77f3608e92adb242 ∷ 0x55f038b237591ed3 ∷ 0x6b6c46dec52f6688 ∷ 0x2323ac4b3b3da015
    ∷ 0xabec975e0a0d081a ∷ 0x96e7bd358c904a21 ∷ 0x7e50d64177da2e54 ∷ 0xdde50bd1d5d0b9e9
    ∷ 0x955e4ec64b44e864 ∷ 0xbd5af13bef0b113e ∷ 0xecb1ad8aeacdd58e ∷ 0x67de18eda5814af2
    ∷ 0x80eacf948770ced7 ∷ 0xa1258379a94d028d ∷ 0x96ee45813a04330 ∷ 0x8bca9d6e188853fc
    ∷ 0x775ea264cf55347d ∷ 0x95364afe032a819d ∷ 0x3a83ddbd83f52204 ∷ 0xc4926a9672793542
    ∷ 0x75b7053c0f178293 ∷ 0x5324c68b12dd6338 ∷ 0xd3f6fc16ebca5e03 ∷ 0x88f4bb1ca6bcf584
    ∷ 0x2b31e9e3d06c32e5 ∷ 0x3aff322e62439fcf ∷ 0x9befeb9fad487c2 ∷ 0x4c2ebe687989a9b3
    ∷ 0xf9d37014bf60a10 ∷ 0x538484c19ef38c94 ∷ 0x2865a5f206b06fb9 ∷ 0xf93f87b7442e45d3
    ∷ 0xf78f69a51539d748 ∷ 0xb573440e5a884d1b ∷ 0x31680a88f8953030 ∷ 0xfdc20d2b36ba7c3d
    ∷ 0x3d32907604691b4c ∷ 0xa63f9a49c2c1b10f ∷ 0xfcf80dc33721d53 ∷ 0xd3c36113404ea4a8
    ∷ 0x645a1cac083126e9 ∷ 0x3d70a3d70a3d70a3 ∷ 0xcccccccccccccccc ∷ 0x0 ∷ 0x0 ∷ 0x0 ∷ 0x0 ∷ 0x0
    ∷ 0x0 ∷ 0x0 ∷ 0x0 ∷ 0x0 ∷ 0x0 ∷ 0x0 ∷ 0x0 ∷ 0x0 ∷ 0x0 ∷ 0x0 ∷ 0x0 ∷ 0x0 ∷ 0x0 ∷ 0x0 ∷ 0x0 ∷ 0x0
    ∷ 0x0 ∷ 0x0 ∷ 0x0 ∷ 0x0 ∷ 0x0 ∷ 0x0 ∷ 0x0 ∷ 0x4000000000000000 ∷ 0x5000000000000000
    ∷ 0xa400000000000000 ∷ 0x4d00000000000000 ∷ 0xf020000000000000 ∷ 0x6c28000000000000
    ∷ 0xc732000000000000 ∷ 0x3c7f400000000000 ∷ 0x4b9f100000000000 ∷ 0x1e86d40000000000
    ∷ 0x1314448000000000 ∷ 0x17d955a000000000 ∷ 0x5dcfab0800000000 ∷ 0x5aa1cae500000000
    ∷ 0xf14a3d9e40000000 ∷ 0x6d9ccd05d0000000 ∷ 0xe4820023a2000000 ∷ 0xdda2802c8a800000
    ∷ 0xd50b2037ad200000 ∷ 0x4526f422cc340000 ∷ 0x9670b12b7f410000 ∷ 0x3c0cdd765f114000
    ∷ 0xa5880a69fb6ac800 ∷ 0x8eea0d047a457a00 ∷ 0x72a4904598d6d880 ∷ 0x47a6da2b7f864750
    ∷ 0x999090b65f67d924 ∷ 0xfff4b4e3f741cf6d ∷ []

abbrev pub mantissas_3 : List ℕ
mantissas_3 =
    0xbff8f10e7a8921a4 ∷ 0xaff72d52192b6a0d ∷ 0x9bf4f8a69f764490 ∷ 0x2f236d04753d5b4
    ∷ 0x1d762422c946590 ∷ 0x424d3ad2b7b97ef5 ∷ 0xd2e0898765a7deb2 ∷ 0x63cc55f49f88eb2f
    ∷ 0x3cbf6b71c76b25fb ∷ 0x8bef464e3945ef7a ∷ 0x97758bf0e3cbb5ac ∷ 0x3d52eeed1cbea317
    ∷ 0x4ca7aaa863ee4bdd ∷ 0x8fe8caa93e74ef6a ∷ 0xb3e2fd538e122b44 ∷ 0x60dbbca87196b616
    ∷ 0xbc8955e946fe31cd ∷ 0x6babab6398bdbe41 ∷ 0xc696963c7eed2dd1 ∷ 0xfc1e1de5cf543ca2
    ∷ 0x3b25a55f43294bcb ∷ 0x49ef0eb713f39ebe ∷ 0x6e3569326c784337 ∷ 0x49c2c37f07965404
    ∷ 0xdc33745ec97be906 ∷ 0x69a028bb3ded71a3 ∷ 0xc40832ea0d68ce0c ∷ 0xf50a3fa490c30190
    ∷ 0x792667c6da79e0fa ∷ 0x577001b891185938 ∷ 0xed4c0226b55e6f86 ∷ 0x544f8158315b05b4
    ∷ 0x696361ae3db1c721 ∷ 0x3bc3a19cd1e38e9 ∷ 0x4ab48a04065c723 ∷ 0x62eb0d64283f9c76
    ∷ 0x3ba5d0bd324f8394 ∷ 0xca8f44ec7ee36479 ∷ 0x7e998b13cf4e1ecb ∷ 0x9e3fedd8c321a67e
    ∷ 0xc5cfe94ef3ea101e ∷ 0xbba1f1d158724a12 ∷ 0x2a8a6e45ae8edc97 ∷ 0xf52d09d71a3293bd
    ∷ 0x593c2626705f9c56 ∷ 0x6f8b2fb00c77836c ∷ 0xb6dfb9c0f956447 ∷ 0x4724bd4189bd5eac
    ∷ 0x58edec91ec2cb657 ∷ 0x2f2967b66737e3ed ∷ 0xbd79e0d20082ee74 ∷ 0xecd8590680a3aa11
    ∷ 0xe80e6f4820cc9495 ∷ 0x3109058d147fdcdd ∷ 0xbd4b46f0599fd415 ∷ 0x6c9e18ac7007c91a
    ∷ 0x3e2cf6bc604ddb0 ∷ 0x84db8346b786151c ∷ 0xe612641865679a63 ∷ 0x4fcb7e8f3f60c07e
    ∷ 0xe3be5e330f38f09d ∷ 0x5cadf5bfd3072cc5 ∷ 0x73d9732fc7c8f7f6 ∷ 0x2867e7fddcdd9afa
    ∷ 0xb281e1fd541501b8 ∷ 0x1f225a7ca91a4226 ∷ 0x3375788de9b06958 ∷ 0x52d6b1641c83ae
    ∷ 0xc0678c5dbd23a49a ∷ 0xf840b7ba963646e0 ∷ 0xb650e5a93bc3d898 ∷ 0xa3e51f138ab4cebe
    ∷ 0xc66f336c36b10137 ∷ 0xb80b0047445d4184 ∷ 0xa60dc059157491e5 ∷ 0x87c89837ad68db2f
    ∷ 0x29babe4598c311fb ∷ 0xf4296dd6fef3d67a ∷ 0x1899e4a65f58660c ∷ 0x5ec05dcff72e7f8f
    ∷ 0x76707543f4fa1f73 ∷ 0x6a06494a791c53a8 ∷ 0x487db9d17636892 ∷ 0x45a9d2845d3c42b6
    ∷ 0xb8a2392ba45a9b2 ∷ 0x8e6cac7768d7141e ∷ 0x3207d795430cd926 ∷ 0x7f44e6bd49e807b8
    ∷ 0x5f16206c9c6209a6 ∷ 0x36dba887c37a8c0f ∷ 0xc2494954da2c9789 ∷ 0xf2db9baa10b7bd6c
    ∷ 0x6f92829494e5acc7 ∷ 0xcb772339ba1f17f9 ∷ 0xff2a760414536efb ∷ 0xfef5138519684aba
    ∷ 0x7eb258665fc25d69 ∷ 0xef2f773ffbd97a61 ∷ 0xaafb550ffacfd8fa ∷ 0x95ba2a53f983cf38
    ∷ 0xdd945a747bf26183 ∷ 0x94f971119aeef9e4 ∷ 0x7a37cd5601aab85d ∷ 0xac62e055c10ab33a
    ∷ 0x577b986b314d6009 ∷ 0xed5a7e85fda0b80b ∷ 0x14588f13be847307 ∷ 0x596eb2d8ae258fc8
    ∷ 0x6fca5f8ed9aef3bb ∷ 0x25de7bb9480d5854 ∷ 0xaf561aa79a10ae6a ∷ 0x1b2ba1518094da04
    ∷ 0x90fb44d2f05d0842 ∷ 0x353a1607ac744a53 ∷ 0x42889b8997915ce8 ∷ 0x69956135febada11
    ∷ 0x43fab9837e699095 ∷ 0x94f967e45e03f4bb ∷ 0x1d1be0eebac278f5 ∷ 0x6462d92a69731732
    ∷ 0x7d7b8f7503cfdcfe ∷ 0x5cda735244c3d43e ∷ 0x3a0888136afa64a7 ∷ 0x88aaa1845b8fdd0
    ∷ 0x8aad549e57273d45 ∷ 0x36ac54e2f678864b ∷ 0x84576a1bb416a7dd ∷ []

abbrev pub mantissas_4 : List ℕ
mantissas_4 =
    0x656d44a2a11c51d5 ∷ 0x9f644ae5a4b1b325 ∷ 0x873d5d9f0dde1fee ∷ 0xa90cb506d155a7ea
    ∷ 0x9a7f12442d588f2 ∷ 0xc11ed6d538aeb2f ∷ 0x8f1668c8a86da5fa ∷ 0xf96e017d694487bc
    ∷ 0x37c981dcc395a9ac ∷ 0x85bbe253f47b1417 ∷ 0x93956d7478ccec8e ∷ 0x387ac8d1970027b2
    ∷ 0x6997b05fcc0319e ∷ 0x441fece3bdf81f03 ∷ 0xd527e81cad7626c3 ∷ 0x8a71e223d8d3b074
    ∷ 0xf6872d5667844e49 ∷ 0xb428f8ac016561db ∷ 0xe13336d701beba52 ∷ 0xecc0024661173473
    ∷ 0x27f002d7f95d0190 ∷ 0x31ec038df7b441f4 ∷ 0x7e67047175a15271 ∷ 0xf0062c6e984d386
    ∷ 0x52c07b78a3e60868 ∷ 0xa7709a56ccdf8a82 ∷ 0x88a66076400bb691 ∷ 0x6acff893d00ea435
    ∷ 0x583f6b8c4124d43 ∷ 0xc3727a337a8b704a ∷ 0x744f18c0592e4c5c ∷ 0x1162def06f79df73
    ∷ 0x8addcb5645ac2ba8 ∷ 0x6d953e2bd7173692 ∷ 0xc8fa8db6ccdd0437 ∷ 0x1d9c9892400a22a2
    ∷ 0x2503beb6d00cab4b ∷ 0x2e44ae64840fd61d ∷ 0x5ceaecfed289e5d2 ∷ 0x7425a83e872c5f47
    ∷ 0xd12f124e28f77719 ∷ 0x82bd6b70d99aaa6f ∷ 0x636cc64d1001550b ∷ 0x3c47f7e05401aa4e
    ∷ 0x65acfaec34810a71 ∷ 0x7f1839a741a14d0d ∷ 0x1ede48111209a050 ∷ 0x934aed0aab460432
    ∷ 0xf81da84d5617853f ∷ 0x36251260ab9d668e ∷ 0xc1d72b7c6b426019 ∷ 0xb24cf65b8612f81f
    ∷ 0xdee033f26797b627 ∷ 0x169840ef017da3b1 ∷ 0x8e1f289560ee864e ∷ 0xf1a6f2bab92a27e2
    ∷ 0xae10af696774b1db ∷ 0xacca6da1e0a8ef29 ∷ 0x17fd090a58d32af3 ∷ 0xddfc4b4cef07f5b0
    ∷ 0x4abdaf101564f98e ∷ 0x9d6d1ad41abe37f1 ∷ 0x84c86189216dc5ed ∷ 0x32fd3cf5b4e49bb4
    ∷ 0x3fbc8c33221dc2a1 ∷ 0xfabaf3feaa5334a ∷ 0x29cb4d87f2a7400e ∷ 0x743e20e9ef511012
    ∷ 0x914da9246b255416 ∷ 0x1ad089b6c2f7548e ∷ 0xa184ac2473b529b1 ∷ 0xc9e5d72d90a2741e
    ∷ 0x7e2fa67c7a658892 ∷ 0xddbb901b98feeab7 ∷ 0x552a74227f3ea565 ∷ 0xd53a88958f87275f
    ∷ 0x8a892abaf368f137 ∷ 0x2d2b7569b0432d85 ∷ 0x9c3b29620e29fc73 ∷ 0x8349f3ba91b47b8f
    ∷ 0x241c70a936219a73 ∷ 0xed238cd383aa0110 ∷ 0xf4363804324a40aa ∷ 0xb143c6053edcd0d5
    ∷ 0xdd94b7868e94050a ∷ 0xca7cf2b4191c8326 ∷ 0xfd1c2f611f63a3f0 ∷ 0xbc633b39673c8cec
    ∷ 0xd5be0503e085d813 ∷ 0x4b2d8644d8a74e18 ∷ 0xddf8e7d60ed1219e ∷ 0xcabb90e5c942b503
    ∷ 0x3d6a751f3b936243 ∷ 0xcc512670a783ad4 ∷ 0x27fb2b80668b24c5 ∷ 0xb1f9f660802dedf6
    ∷ 0x5e7873f8a0396973 ∷ 0xdb0b487b6423e1e8 ∷ 0x91ce1a9a3d2cda62 ∷ 0x7641a140cc7810fb
    ∷ 0xa9e904c87fcb0a9d ∷ 0x546345fa9fbdcd44 ∷ 0xa97c177947ad4095 ∷ 0x49ed8eabcccc485d
    ∷ 0x5c68f256bfff5a74 ∷ 0x73832eec6fff3111 ∷ 0xc831fd53c5ff7eab ∷ 0xba3e7ca8b77f5e55
    ∷ 0x28ce1bd2e55f35eb ∷ 0x7980d163cf5b81b3 ∷ 0xd7e105bcc332621f ∷ 0x8dd9472bf3fefaa7
    ∷ 0xb14f98f6f0feb951 ∷ 0x6ed1bf9a569f33d3 ∷ 0xa862f80ec4700c8 ∷ 0xcd27bb612758c0fa
    ∷ 0x8038d51cb897789c ∷ 0xe0470a63e6bd56c3 ∷ 0x1858ccfce06cac74 ∷ 0xf37801e0c43ebc8
    ∷ 0xd30560258f54e6ba ∷ 0x47c6b82ef32a2069 ∷ 0x4cdc331d57fa5441 ∷ 0xe0133fe4adf8e952
    ∷ 0x58180fddd97723a6 ∷ 0x570f09eaa7ea7648 ∷ []
