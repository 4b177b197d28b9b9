-- ===== src/Numbers/Tables/Components.antt =====
-- src/numberparse/correct/numberconst.rs: `POW10_COMPONENTS`, in stretches.
use simd_toon_improved.Base.{ℕ, List, [], ◌∷◌}

abbrev pub components_0 : List (ℕ × ℕ)
components_0 =
    (0xa5ced43b7e3e9188, 7)
    ∷ (0xcf42894a5dce35ea, 10)
    ∷ (0x818995ce7aa0e1b2, 14)
    ∷ (0xa1ebfb4219491a1f, 17)
    ∷ (0xca66fa129f9b60a6, 20)
    ∷ (0xfd00b897478238d0, 23)
    ∷ (0x9e20735e8cb16382, 27)
    ∷ (0xc5a890362fddbc62, 30)
    ∷ (0xf712b443bbd52b7b, 33)
    ∷ (0x9a6bb0aa55653b2d, 37)
    ∷ (0xc1069cd4eabe89f8, 40)
    ∷ (0xf148440a256e2c76, 43)
    ∷ (0x96cd2a865764dbca, 47)
    ∷ (0xbc807527ed3e12bc, 50)
    ∷ (0xeba09271e88d976b, 53)
    ∷ (0x93445b8731587ea3, 57)
    ∷ (0xb8157268fdae9e4c, 60)
    ∷ (0xe61acf033d1a45df, 63)
    ∷ (0x8fd0c16206306bab, 67)
    ∷ (0xb3c4f1ba87bc8696, 70)
    ∷ (0xe0b62e2929aba83c, 73)
    ∷ (0x8c71dcd9ba0b4925, 77)
    ∷ (0xaf8e5410288e1b6f, 80)
    ∷ (0xdb71e91432b1a24a, 83)
    ∷ (0x892731ac9faf056e, 87)
    ∷ (0xab70fe17c79ac6ca, 90)
    ∷ (0xd64d3d9db981787d, 93)
    ∷ (0x85f0468293f0eb4e, 97)
    ∷ (0xa76c582338ed2621, 100)
    ∷ (0xd1476e2c07286faa, 103)
    ∷ (0x82cca4db847945ca, 107)
    ∷ (0xa37fce126597973c, 110)
    ∷ (0xcc5fc196fefd7d0c, 113)
    ∷ (0xff77b1fcbebcdc4f, 116)
    ∷ (0x9faacf3df73609b1, 120)
    ∷ (0xc795830d75038c1d, 123)
    ∷ (0xf97ae3d0d2446f25, 126)
    ∷ (0x9becce62836ac577, 130)
    ∷ (0xc2e801fb244576d5, 133)
    ∷ (0xf3a20279ed56d48a, 136)
    ∷ (0x9845418c345644d6, 140)
    ∷ (0xbe5691ef416bd60c, 143)
    ∷ (0xedec366b11c6cb8f, 146)
    ∷ (0x94b3a202eb1c3f39, 150)
    ∷ (0xb9e08a83a5e34f07, 153)
    ∷ (0xe858ad248f5c22c9, 156)
    ∷ (0x91376c36d99995be, 160)
    ∷ (0xb58547448ffffb2d, 163)
    ∷ (0xe2e69915b3fff9f9, 166)
    ∷ (0x8dd01fad907ffc3b, 170)
    ∷ (0xb1442798f49ffb4a, 173)
    ∷ (0xdd95317f31c7fa1d, 176)
    ∷ (0x8a7d3eef7f1cfc52, 180)
    ∷ (0xad1c8eab5ee43b66, 183)
    ∷ (0xd863b256369d4a40, 186)
    ∷ (0x873e4f75e2224e68, 190)
    ∷ (0xa90de3535aaae202, 193)
    ∷ (0xd3515c2831559a83, 196)
    ∷ (0x8412d9991ed58091, 200)
    ∷ (0xa5178fff668ae0b6, 203)
    ∷ (0xce5d73ff402d98e3, 206)
    ∷ (0x80fa687f881c7f8e, 210)
    ∷ (0xa139029f6a239f72, 213)
    ∷ (0xc987434744ac874e, 216)
    ∷ (0xfbe9141915d7a922, 219)
    ∷ (0x9d71ac8fada6c9b5, 223)
    ∷ (0xc4ce17b399107c22, 226)
    ∷ (0xf6019da07f549b2b, 229)
    ∷ (0x99c102844f94e0fb, 233)
    ∷ (0xc0314325637a1939, 236)
    ∷ (0xf03d93eebc589f88, 239)
    ∷ (0x96267c7535b763b5, 243)
    ∷ (0xbbb01b9283253ca2, 246)
    ∷ (0xea9c227723ee8bcb, 249)
    ∷ (0x92a1958a7675175f, 253)
    ∷ (0xb749faed14125d36, 256)
    ∷ (0xe51c79a85916f484, 259)
    ∷ (0x8f31cc0937ae58d2, 263)
    ∷ (0xb2fe3f0b8599ef07, 266)
    ∷ (0xdfbdcece67006ac9, 269)
    ∷ (0x8bd6a141006042bd, 273)
    ∷ (0xaecc49914078536d, 276)
    ∷ (0xda7f5bf590966848, 279)
    ∷ (0x888f99797a5e012d, 283)
    ∷ (0xaab37fd7d8f58178, 286)
    ∷ (0xd5605fcdcf32e1d6, 289)
    ∷ (0x855c3be0a17fcd26, 293)
    ∷ (0xa6b34ad8c9dfc06f, 296)
    ∷ (0xd0601d8efc57b08b, 299)
    ∷ (0x823c12795db6ce57, 303)
    ∷ (0xa2cb1717b52481ed, 306)
    ∷ (0xcb7ddcdda26da268, 309)
    ∷ (0xfe5d54150b090b02, 312)
    ∷ (0x9efa548d26e5a6e1, 316)
    ∷ (0xc6b8e9b0709f109a, 319)
    ∷ (0xf867241c8cc6d4c0, 322)
    ∷ (0x9b407691d7fc44f8, 326)
    ∷ (0xc21094364dfb5636, 329)
    ∷ (0xf294b943e17a2bc4, 332)
    ∷ (0x979cf3ca6cec5b5a, 336)
    ∷ (0xbd8430bd08277231, 339)
    ∷ (0xece53cec4a314ebd, 342)
    ∷ (0x940f4613ae5ed136, 346)
    ∷ (0xb913179899f68584, 349)
    ∷ (0xe757dd7ec07426e5, 352)
    ∷ (0x9096ea6f3848984f, 356)
    ∷ (0xb4bca50b065abe63, 359)
    ∷ (0xe1ebce4dc7f16dfb, 362)
    ∷ (0x8d3360f09cf6e4bd, 366)
    ∷ (0xb080392cc4349dec, 369)
    ∷ (0xdca04777f541c567, 372)
    ∷ (0x89e42caaf9491b60, 376)
    ∷ (0xac5d37d5b79b6239, 379)
    ∷ (0xd77485cb25823ac7, 382)
    ∷ (0x86a8d39ef77164bc, 386)
    ∷ (0xa8530886b54dbdeb, 389)
    ∷ (0xd267caa862a12d66, 392)
    ∷ (0x8380dea93da4bc60, 396)
    ∷ (0xa46116538d0deb78, 399)
    ∷ (0xcd795be870516656, 402)
    ∷ (0x806bd9714632dff6, 406)
    ∷ (0xa086cfcd97bf97f3, 409)
    ∷ (0xc8a883c0fdaf7df0, 412)
    ∷ (0xfad2a4b13d1b5d6c, 415)
    ∷ (0x9cc3a6eec6311a63, 419)
    ∷ (0xc3f490aa77bd60fc, 422)
    ∷ (0xf4f1b4d515acb93b, 425)
    ∷ []

abbrev pub components_1 : List (ℕ × ℕ)
components_1 =
    (0x991711052d8bf3c5, 429)
    ∷ (0xbf5cd54678eef0b6, 432)
    ∷ (0xef340a98172aace4, 435)
    ∷ (0x9580869f0e7aac0e, 439)
    ∷ (0xbae0a846d2195712, 442)
    ∷ (0xe998d258869facd7, 445)
    ∷ (0x91ff83775423cc06, 449)
    ∷ (0xb67f6455292cbf08, 452)
    ∷ (0xe41f3d6a7377eeca, 455)
    ∷ (0x8e938662882af53e, 459)
    ∷ (0xb23867fb2a35b28d, 462)
    ∷ (0xdec681f9f4c31f31, 465)
    ∷ (0x8b3c113c38f9f37e, 469)
    ∷ (0xae0b158b4738705e, 472)
    ∷ (0xd98ddaee19068c76, 475)
    ∷ (0x87f8a8d4cfa417c9, 479)
    ∷ (0xa9f6d30a038d1dbc, 482)
    ∷ (0xd47487cc8470652b, 485)
    ∷ (0x84c8d4dfd2c63f3b, 489)
    ∷ (0xa5fb0a17c777cf09, 492)
    ∷ (0xcf79cc9db955c2cc, 495)
    ∷ (0x81ac1fe293d599bf, 499)
    ∷ (0xa21727db38cb002f, 502)
    ∷ (0xca9cf1d206fdc03b, 505)
    ∷ (0xfd442e4688bd304a, 508)
    ∷ (0x9e4a9cec15763e2e, 512)
    ∷ (0xc5dd44271ad3cdba, 515)
    ∷ (0xf7549530e188c128, 518)
    ∷ (0x9a94dd3e8cf578b9, 522)
    ∷ (0xc13a148e3032d6e7, 525)
    ∷ (0xf18899b1bc3f8ca1, 528)
    ∷ (0x96f5600f15a7b7e5, 532)
    ∷ (0xbcb2b812db11a5de, 535)
    ∷ (0xebdf661791d60f56, 538)
    ∷ (0x936b9fcebb25c995, 542)
    ∷ (0xb84687c269ef3bfb, 545)
    ∷ (0xe65829b3046b0afa, 548)
    ∷ (0x8ff71a0fe2c2e6dc, 552)
    ∷ (0xb3f4e093db73a093, 555)
    ∷ (0xe0f218b8d25088b8, 558)
    ∷ (0x8c974f7383725573, 562)
    ∷ (0xafbd2350644eeacf, 565)
    ∷ (0xdbac6c247d62a583, 568)
    ∷ (0x894bc396ce5da772, 572)
    ∷ (0xab9eb47c81f5114f, 575)
    ∷ (0xd686619ba27255a2, 578)
    ∷ (0x8613fd0145877585, 582)
    ∷ (0xa798fc4196e952e7, 585)
    ∷ (0xd17f3b51fca3a7a0, 588)
    ∷ (0x82ef85133de648c4, 592)
    ∷ (0xa3ab66580d5fdaf5, 595)
    ∷ (0xcc963fee10b7d1b3, 598)
    ∷ (0xffbbcfe994e5c61f, 601)
    ∷ (0x9fd561f1fd0f9bd3, 605)
    ∷ (0xc7caba6e7c5382c8, 608)
    ∷ (0xf9bd690a1b68637b, 611)
    ∷ (0x9c1661a651213e2d, 615)
    ∷ (0xc31bfa0fe5698db8, 618)
    ∷ (0xf3e2f893dec3f126, 621)
    ∷ (0x986ddb5c6b3a76b7, 625)
    ∷ (0xbe89523386091465, 628)
    ∷ (0xee2ba6c0678b597f, 631)
    ∷ (0x94db483840b717ef, 635)
    ∷ (0xba121a4650e4ddeb, 638)
    ∷ (0xe896a0d7e51e1566, 641)
    ∷ (0x915e2486ef32cd60, 645)
    ∷ (0xb5b5ada8aaff80b8, 648)
    ∷ (0xe3231912d5bf60e6, 651)
    ∷ (0x8df5efabc5979c8f, 655)
    ∷ (0xb1736b96b6fd83b3, 658)
    ∷ (0xddd0467c64bce4a0, 661)
    ∷ (0x8aa22c0dbef60ee4, 665)
    ∷ (0xad4ab7112eb3929d, 668)
    ∷ (0xd89d64d57a607744, 671)
    ∷ (0x87625f056c7c4a8b, 675)
    ∷ (0xa93af6c6c79b5d2d, 678)
    ∷ (0xd389b47879823479, 681)
    ∷ (0x843610cb4bf160cb, 685)
    ∷ (0xa54394fe1eedb8fe, 688)
    ∷ (0xce947a3da6a9273e, 691)
    ∷ (0x811ccc668829b887, 695)
    ∷ (0xa163ff802a3426a8, 698)
    ∷ (0xc9bcff6034c13052, 701)
    ∷ (0xfc2c3f3841f17c67, 704)
    ∷ (0x9d9ba7832936edc0, 708)
    ∷ (0xc5029163f384a931, 711)
    ∷ (0xf64335bcf065d37d, 714)
    ∷ (0x99ea0196163fa42e, 718)
    ∷ (0xc06481fb9bcf8d39, 721)
    ∷ (0xf07da27a82c37088, 724)
    ∷ (0x964e858c91ba2655, 728)
    ∷ (0xbbe226efb628afea, 731)
    ∷ (0xeadab0aba3b2dbe5, 734)
    ∷ (0x92c8ae6b464fc96f, 738)
    ∷ (0xb77ada0617e3bbcb, 741)
    ∷ (0xe55990879ddcaabd, 744)
    ∷ (0x8f57fa54c2a9eab6, 748)
    ∷ (0xb32df8e9f3546564, 751)
    ∷ (0xdff9772470297ebd, 754)
    ∷ (0x8bfbea76c619ef36, 758)
    ∷ (0xaefae51477a06b03, 761)
    ∷ (0xdab99e59958885c4, 764)
    ∷ (0x88b402f7fd75539b, 768)
    ∷ (0xaae103b5fcd2a881, 771)
    ∷ (0xd59944a37c0752a2, 774)
    ∷ (0x857fcae62d8493a5, 778)
    ∷ (0xa6dfbd9fb8e5b88e, 781)
    ∷ (0xd097ad07a71f26b2, 784)
    ∷ (0x825ecc24c873782f, 788)
    ∷ (0xa2f67f2dfa90563b, 791)
    ∷ (0xcbb41ef979346bca, 794)
    ∷ (0xfea126b7d78186bc, 797)
    ∷ (0x9f24b832e6b0f436, 801)
    ∷ (0xc6ede63fa05d3143, 804)
    ∷ (0xf8a95fcf88747d94, 807)
    ∷ (0x9b69dbe1b548ce7c, 811)
    ∷ (0xc24452da229b021b, 814)
    ∷ (0xf2d56790ab41c2a2, 817)
    ∷ (0x97c560ba6b0919a5, 821)
    ∷ (0xbdb6b8e905cb600f, 824)
    ∷ (0xed246723473e3813, 827)
    ∷ (0x9436c0760c86e30b, 831)
    ∷ (0xb94470938fa89bce, 834)
    ∷ (0xe7958cb87392c2c2, 837)
    ∷ (0x90bd77f3483bb9b9, 841)
    ∷ (0xb4ecd5f01a4aa828, 844)
    ∷ (0xe2280b6c20dd5232, 847)
    ∷ []

abbrev pub components_2 : List (ℕ × ℕ)
components_2 =
    (0x8d590723948a535f, 851)
    ∷ (0xb0af48ec79ace837, 854)
    ∷ (0xdcdb1b2798182244, 857)
    ∷ (0x8a08f0f8bf0f156b, 861)
    ∷ (0xac8b2d36eed2dac5, 864)
    ∷ (0xd7adf884aa879177, 867)
    ∷ (0x86ccbb52ea94baea, 871)
    ∷ (0xa87fea27a539e9a5, 874)
    ∷ (0xd29fe4b18e88640e, 877)
    ∷ (0x83a3eeeef9153e89, 881)
    ∷ (0xa48ceaaab75a8e2b, 884)
    ∷ (0xcdb02555653131b6, 887)
    ∷ (0x808e17555f3ebf11, 891)
    ∷ (0xa0b19d2ab70e6ed6, 894)
    ∷ (0xc8de047564d20a8b, 897)
    ∷ (0xfb158592be068d2e, 900)
    ∷ (0x9ced737bb6c4183d, 904)
    ∷ (0xc428d05aa4751e4c, 907)
    ∷ (0xf53304714d9265df, 910)
    ∷ (0x993fe2c6d07b7fab, 914)
    ∷ (0xbf8fdb78849a5f96, 917)
    ∷ (0xef73d256a5c0f77c, 920)
    ∷ (0x95a8637627989aad, 924)
    ∷ (0xbb127c53b17ec159, 927)
    ∷ (0xe9d71b689dde71af, 930)
    ∷ (0x9226712162ab070d, 934)
    ∷ (0xb6b00d69bb55c8d1, 937)
    ∷ (0xe45c10c42a2b3b05, 940)
    ∷ (0x8eb98a7a9a5b04e3, 944)
    ∷ (0xb267ed1940f1c61c, 947)
    ∷ (0xdf01e85f912e37a3, 950)
    ∷ (0x8b61313bbabce2c6, 954)
    ∷ (0xae397d8aa96c1b77, 957)
    ∷ (0xd9c7dced53c72255, 960)
    ∷ (0x881cea14545c7575, 964)
    ∷ (0xaa242499697392d2, 967)
    ∷ (0xd4ad2dbfc3d07787, 970)
    ∷ (0x84ec3c97da624ab4, 974)
    ∷ (0xa6274bbdd0fadd61, 977)
    ∷ (0xcfb11ead453994ba, 980)
    ∷ (0x81ceb32c4b43fcf4, 984)
    ∷ (0xa2425ff75e14fc31, 987)
    ∷ (0xcad2f7f5359a3b3e, 990)
    ∷ (0xfd87b5f28300ca0d, 993)
    ∷ (0x9e74d1b791e07e48, 997)
    ∷ (0xc612062576589dda, 1000)
    ∷ (0xf79687aed3eec551, 1003)
    ∷ (0x9abe14cd44753b52, 1007)
    ∷ (0xc16d9a0095928a27, 1010)
    ∷ (0xf1c90080baf72cb1, 1013)
    ∷ (0x971da05074da7bee, 1017)
    ∷ (0xbce5086492111aea, 1020)
    ∷ (0xec1e4a7db69561a5, 1023)
    ∷ (0x9392ee8e921d5d07, 1027)
    ∷ (0xb877aa3236a4b449, 1030)
    ∷ (0xe69594bec44de15b, 1033)
    ∷ (0x901d7cf73ab0acd9, 1037)
    ∷ (0xb424dc35095cd80f, 1040)
    ∷ (0xe12e13424bb40e13, 1043)
    ∷ (0x8cbccc096f5088cb, 1047)
    ∷ (0xafebff0bcb24aafe, 1050)
    ∷ (0xdbe6fecebdedd5be, 1053)
    ∷ (0x89705f4136b4a597, 1057)
    ∷ (0xabcc77118461cefc, 1060)
    ∷ (0xd6bf94d5e57a42bc, 1063)
    ∷ (0x8637bd05af6c69b5, 1067)
    ∷ (0xa7c5ac471b478423, 1070)
    ∷ (0xd1b71758e219652b, 1073)
    ∷ (0x83126e978d4fdf3b, 1077)
    ∷ (0xa3d70a3d70a3d70a, 1080)
    ∷ (0xcccccccccccccccc, 1083)
    ∷ (0x8000000000000000, 1087)
    ∷ (0xa000000000000000, 1090)
    ∷ (0xc800000000000000, 1093)
    ∷ (0xfa00000000000000, 1096)
    ∷ (0x9c40000000000000, 1100)
    ∷ (0xc350000000000000, 1103)
    ∷ (0xf424000000000000, 1106)
    ∷ (0x9896800000000000, 1110)
    ∷ (0xbebc200000000000, 1113)
    ∷ (0xee6b280000000000, 1116)
    ∷ (0x9502f90000000000, 1120)
    ∷ (0xba43b74000000000, 1123)
    ∷ (0xe8d4a51000000000, 1126)
    ∷ (0x9184e72a00000000, 1130)
    ∷ (0xb5e620f480000000, 1133)
    ∷ (0xe35fa931a0000000, 1136)
    ∷ (0x8e1bc9bf04000000, 1140)
    ∷ (0xb1a2bc2ec5000000, 1143)
    ∷ (0xde0b6b3a76400000, 1146)
    ∷ (0x8ac7230489e80000, 1150)
    ∷ (0xad78ebc5ac620000, 1153)
    ∷ (0xd8d726b7177a8000, 1156)
    ∷ (0x878678326eac9000, 1160)
    ∷ (0xa968163f0a57b400, 1163)
    ∷ (0xd3c21bcecceda100, 1166)
    ∷ (0x84595161401484a0, 1170)
    ∷ (0xa56fa5b99019a5c8, 1173)
    ∷ (0xcecb8f27f4200f3a, 1176)
    ∷ (0x813f3978f8940984, 1180)
    ∷ (0xa18f07d736b90be5, 1183)
    ∷ (0xc9f2c9cd04674ede, 1186)
    ∷ (0xfc6f7c4045812296, 1189)
    ∷ (0x9dc5ada82b70b59d, 1193)
    ∷ (0xc5371912364ce305, 1196)
    ∷ (0xf684df56c3e01bc6, 1199)
    ∷ (0x9a130b963a6c115c, 1203)
    ∷ (0xc097ce7bc90715b3, 1206)
    ∷ (0xf0bdc21abb48db20, 1209)
    ∷ (0x96769950b50d88f4, 1213)
    ∷ (0xbc143fa4e250eb31, 1216)
    ∷ (0xeb194f8e1ae525fd, 1219)
    ∷ (0x92efd1b8d0cf37be, 1223)
    ∷ (0xb7abc627050305ad, 1226)
    ∷ (0xe596b7b0c643c719, 1229)
    ∷ (0x8f7e32ce7bea5c6f, 1233)
    ∷ (0xb35dbf821ae4f38b, 1236)
    ∷ (0xe0352f62a19e306e, 1239)
    ∷ (0x8c213d9da502de45, 1243)
    ∷ (0xaf298d050e4395d6, 1246)
    ∷ (0xdaf3f04651d47b4c, 1249)
    ∷ (0x88d8762bf324cd0f, 1253)
    ∷ (0xab0e93b6efee0053, 1256)
    ∷ (0xd5d238a4abe98068, 1259)
    ∷ (0x85a36366eb71f041, 1263)
    ∷ (0xa70c3c40a64e6c51, 1266)
    ∷ (0xd0cf4b50cfe20765, 1269)
    ∷ []

abbrev pub components_3 : List (ℕ × ℕ)
components_3 =
    (0x82818f1281ed449f, 1273)
    ∷ (0xa321f2d7226895c7, 1276)
    ∷ (0xcbea6f8ceb02bb39, 1279)
    ∷ (0xfee50b7025c36a08, 1282)
    ∷ (0x9f4f2726179a2245, 1286)
    ∷ (0xc722f0ef9d80aad6, 1289)
    ∷ (0xf8ebad2b84e0d58b, 1292)
    ∷ (0x9b934c3b330c8577, 1296)
    ∷ (0xc2781f49ffcfa6d5, 1299)
    ∷ (0xf316271c7fc3908a, 1302)
    ∷ (0x97edd871cfda3a56, 1306)
    ∷ (0xbde94e8e43d0c8ec, 1309)
    ∷ (0xed63a231d4c4fb27, 1312)
    ∷ (0x945e455f24fb1cf8, 1316)
    ∷ (0xb975d6b6ee39e436, 1319)
    ∷ (0xe7d34c64a9c85d44, 1322)
    ∷ (0x90e40fbeea1d3a4a, 1326)
    ∷ (0xb51d13aea4a488dd, 1329)
    ∷ (0xe264589a4dcdab14, 1332)
    ∷ (0x8d7eb76070a08aec, 1336)
    ∷ (0xb0de65388cc8ada8, 1339)
    ∷ (0xdd15fe86affad912, 1342)
    ∷ (0x8a2dbf142dfcc7ab, 1346)
    ∷ (0xacb92ed9397bf996, 1349)
    ∷ (0xd7e77a8f87daf7fb, 1352)
    ∷ (0x86f0ac99b4e8dafd, 1356)
    ∷ (0xa8acd7c0222311bc, 1359)
    ∷ (0xd2d80db02aabd62b, 1362)
    ∷ (0x83c7088e1aab65db, 1366)
    ∷ (0xa4b8cab1a1563f52, 1369)
    ∷ (0xcde6fd5e09abcf26, 1372)
    ∷ (0x80b05e5ac60b6178, 1376)
    ∷ (0xa0dc75f1778e39d6, 1379)
    ∷ (0xc913936dd571c84c, 1382)
    ∷ (0xfb5878494ace3a5f, 1385)
    ∷ (0x9d174b2dcec0e47b, 1389)
    ∷ (0xc45d1df942711d9a, 1392)
    ∷ (0xf5746577930d6500, 1395)
    ∷ (0x9968bf6abbe85f20, 1399)
    ∷ (0xbfc2ef456ae276e8, 1402)
    ∷ (0xefb3ab16c59b14a2, 1405)
    ∷ (0x95d04aee3b80ece5, 1409)
    ∷ (0xbb445da9ca61281f, 1412)
    ∷ (0xea1575143cf97226, 1415)
    ∷ (0x924d692ca61be758, 1419)
    ∷ (0xb6e0c377cfa2e12e, 1422)
    ∷ (0xe498f455c38b997a, 1425)
    ∷ (0x8edf98b59a373fec, 1429)
    ∷ (0xb2977ee300c50fe7, 1432)
    ∷ (0xdf3d5e9bc0f653e1, 1435)
    ∷ (0x8b865b215899f46c, 1439)
    ∷ (0xae67f1e9aec07187, 1442)
    ∷ (0xda01ee641a708de9, 1445)
    ∷ (0x884134fe908658b2, 1449)
    ∷ (0xaa51823e34a7eede, 1452)
    ∷ (0xd4e5e2cdc1d1ea96, 1455)
    ∷ (0x850fadc09923329e, 1459)
    ∷ (0xa6539930bf6bff45, 1462)
    ∷ (0xcfe87f7cef46ff16, 1465)
    ∷ (0x81f14fae158c5f6e, 1469)
    ∷ (0xa26da3999aef7749, 1472)
    ∷ (0xcb090c8001ab551c, 1475)
    ∷ (0xfdcb4fa002162a63, 1478)
    ∷ (0x9e9f11c4014dda7e, 1482)
    ∷ (0xc646d63501a1511d, 1485)
    ∷ (0xf7d88bc24209a565, 1488)
    ∷ (0x9ae757596946075f, 1492)
    ∷ (0xc1a12d2fc3978937, 1495)
    ∷ (0xf209787bb47d6b84, 1498)
    ∷ (0x9745eb4d50ce6332, 1502)
    ∷ (0xbd176620a501fbff, 1505)
    ∷ (0xec5d3fa8ce427aff, 1508)
    ∷ (0x93ba47c980e98cdf, 1512)
    ∷ (0xb8a8d9bbe123f017, 1515)
    ∷ (0xe6d3102ad96cec1d, 1518)
    ∷ (0x9043ea1ac7e41392, 1522)
    ∷ (0xb454e4a179dd1877, 1525)
    ∷ (0xe16a1dc9d8545e94, 1528)
    ∷ (0x8ce2529e2734bb1d, 1532)
    ∷ (0xb01ae745b101e9e4, 1535)
    ∷ (0xdc21a1171d42645d, 1538)
    ∷ (0x899504ae72497eba, 1542)
    ∷ (0xabfa45da0edbde69, 1545)
    ∷ (0xd6f8d7509292d603, 1548)
    ∷ (0x865b86925b9bc5c2, 1552)
    ∷ (0xa7f26836f282b732, 1555)
    ∷ (0xd1ef0244af2364ff, 1558)
    ∷ (0x8335616aed761f1f, 1562)
    ∷ (0xa402b9c5a8d3a6e7, 1565)
    ∷ (0xcd036837130890a1, 1568)
    ∷ (0x802221226be55a64, 1572)
    ∷ (0xa02aa96b06deb0fd, 1575)
    ∷ (0xc83553c5c8965d3d, 1578)
    ∷ (0xfa42a8b73abbf48c, 1581)
    ∷ (0x9c69a97284b578d7, 1585)
    ∷ (0xc38413cf25e2d70d, 1588)
    ∷ (0xf46518c2ef5b8cd1, 1591)
    ∷ (0x98bf2f79d5993802, 1595)
    ∷ (0xbeeefb584aff8603, 1598)
    ∷ (0xeeaaba2e5dbf6784, 1601)
    ∷ (0x952ab45cfa97a0b2, 1605)
    ∷ (0xba756174393d88df, 1608)
    ∷ (0xe912b9d1478ceb17, 1611)
    ∷ (0x91abb422ccb812ee, 1615)
    ∷ (0xb616a12b7fe617aa, 1618)
    ∷ (0xe39c49765fdf9d94, 1621)
    ∷ (0x8e41ade9fbebc27d, 1625)
    ∷ (0xb1d219647ae6b31c, 1628)
    ∷ (0xde469fbd99a05fe3, 1631)
    ∷ (0x8aec23d680043bee, 1635)
    ∷ (0xada72ccc20054ae9, 1638)
    ∷ (0xd910f7ff28069da4, 1641)
    ∷ (0x87aa9aff79042286, 1645)
    ∷ (0xa99541bf57452b28, 1648)
    ∷ (0xd3fa922f2d1675f2, 1651)
    ∷ (0x847c9b5d7c2e09b7, 1655)
    ∷ (0xa59bc234db398c25, 1658)
    ∷ (0xcf02b2c21207ef2e, 1661)
    ∷ (0x8161afb94b44f57d, 1665)
    ∷ (0xa1ba1ba79e1632dc, 1668)
    ∷ (0xca28a291859bbf93, 1671)
    ∷ (0xfcb2cb35e702af78, 1674)
    ∷ (0x9defbf01b061adab, 1678)
    ∷ (0xc56baec21c7a1916, 1681)
    ∷ (0xf6c69a72a3989f5b, 1684)
    ∷ (0x9a3c2087a63f6399, 1688)
    ∷ (0xc0cb28a98fcf3c7f, 1691)
    ∷ []

abbrev pub components_4 : List (ℕ × ℕ)
components_4 =
    (0xf0fdf2d3f3c30b9f, 1694)
    ∷ (0x969eb7c47859e743, 1698)
    ∷ (0xbc4665b596706114, 1701)
    ∷ (0xeb57ff22fc0c7959, 1704)
    ∷ (0x9316ff75dd87cbd8, 1708)
    ∷ (0xb7dcbf5354e9bece, 1711)
    ∷ (0xe5d3ef282a242e81, 1714)
    ∷ (0x8fa475791a569d10, 1718)
    ∷ (0xb38d92d760ec4455, 1721)
    ∷ (0xe070f78d3927556a, 1724)
    ∷ (0x8c469ab843b89562, 1728)
    ∷ (0xaf58416654a6babb, 1731)
    ∷ (0xdb2e51bfe9d0696a, 1734)
    ∷ (0x88fcf317f22241e2, 1738)
    ∷ (0xab3c2fddeeaad25a, 1741)
    ∷ (0xd60b3bd56a5586f1, 1744)
    ∷ (0x85c7056562757456, 1748)
    ∷ (0xa738c6bebb12d16c, 1751)
    ∷ (0xd106f86e69d785c7, 1754)
    ∷ (0x82a45b450226b39c, 1758)
    ∷ (0xa34d721642b06084, 1761)
    ∷ (0xcc20ce9bd35c78a5, 1764)
    ∷ (0xff290242c83396ce, 1767)
    ∷ (0x9f79a169bd203e41, 1771)
    ∷ (0xc75809c42c684dd1, 1774)
    ∷ (0xf92e0c3537826145, 1777)
    ∷ (0x9bbcc7a142b17ccb, 1781)
    ∷ (0xc2abf989935ddbfe, 1784)
    ∷ (0xf356f7ebf83552fe, 1787)
    ∷ (0x98165af37b2153de, 1791)
    ∷ (0xbe1bf1b059e9a8d6, 1794)
    ∷ (0xeda2ee1c7064130c, 1797)
    ∷ (0x9485d4d1c63e8be7, 1801)
    ∷ (0xb9a74a0637ce2ee1, 1804)
    ∷ (0xe8111c87c5c1ba99, 1807)
    ∷ (0x910ab1d4db9914a0, 1811)
    ∷ (0xb54d5e4a127f59c8, 1814)
    ∷ (0xe2a0b5dc971f303a, 1817)
    ∷ (0x8da471a9de737e24, 1821)
    ∷ (0xb10d8e1456105dad, 1824)
    ∷ (0xdd50f1996b947518, 1827)
    ∷ (0x8a5296ffe33cc92f, 1831)
    ∷ (0xace73cbfdc0bfb7b, 1834)
    ∷ (0xd8210befd30efa5a, 1837)
    ∷ (0x8714a775e3e95c78, 1841)
    ∷ (0xa8d9d1535ce3b396, 1844)
    ∷ (0xd31045a8341ca07c, 1847)
    ∷ (0x83ea2b892091e44d, 1851)
    ∷ (0xa4e4b66b68b65d60, 1854)
    ∷ (0xce1de40642e3f4b9, 1857)
    ∷ (0x80d2ae83e9ce78f3, 1861)
    ∷ (0xa1075a24e4421730, 1864)
    ∷ (0xc94930ae1d529cfc, 1867)
    ∷ (0xfb9b7cd9a4a7443c, 1870)
    ∷ (0x9d412e0806e88aa5, 1874)
    ∷ (0xc491798a08a2ad4e, 1877)
    ∷ (0xf5b5d7ec8acb58a2, 1880)
    ∷ (0x9991a6f3d6bf1765, 1884)
    ∷ (0xbff610b0cc6edd3f, 1887)
    ∷ (0xeff394dcff8a948e, 1890)
    ∷ (0x95f83d0a1fb69cd9, 1894)
    ∷ (0xbb764c4ca7a4440f, 1897)
    ∷ (0xea53df5fd18d5513, 1900)
    ∷ (0x92746b9be2f8552c, 1904)
    ∷ (0xb7118682dbb66a77, 1907)
    ∷ (0xe4d5e82392a40515, 1910)
    ∷ (0x8f05b1163ba6832d, 1914)
    ∷ (0xb2c71d5bca9023f8, 1917)
    ∷ (0xdf78e4b2bd342cf6, 1920)
    ∷ (0x8bab8eefb6409c1a, 1924)
    ∷ (0xae9672aba3d0c320, 1927)
    ∷ (0xda3c0f568cc4f3e8, 1930)
    ∷ (0x8865899617fb1871, 1934)
    ∷ (0xaa7eebfb9df9de8d, 1937)
    ∷ (0xd51ea6fa85785631, 1940)
    ∷ (0x8533285c936b35de, 1944)
    ∷ (0xa67ff273b8460356, 1947)
    ∷ (0xd01fef10a657842c, 1950)
    ∷ (0x8213f56a67f6b29b, 1954)
    ∷ (0xa298f2c501f45f42, 1957)
    ∷ (0xcb3f2f7642717713, 1960)
    ∷ (0xfe0efb53d30dd4d7, 1963)
    ∷ (0x9ec95d1463e8a506, 1967)
    ∷ (0xc67bb4597ce2ce48, 1970)
    ∷ (0xf81aa16fdc1b81da, 1973)
    ∷ (0x9b10a4e5e9913128, 1977)
    ∷ (0xc1d4ce1f63f57d72, 1980)
    ∷ (0xf24a01a73cf2dccf, 1983)
    ∷ (0x976e41088617ca01, 1987)
    ∷ (0xbd49d14aa79dbc82, 1990)
    ∷ (0xec9c459d51852ba2, 1993)
    ∷ (0x93e1ab8252f33b45, 1997)
    ∷ (0xb8da1662e7b00a17, 2000)
    ∷ (0xe7109bfba19c0c9d, 2003)
    ∷ (0x906a617d450187e2, 2007)
    ∷ (0xb484f9dc9641e9da, 2010)
    ∷ (0xe1a63853bbd26451, 2013)
    ∷ (0x8d07e33455637eb2, 2017)
    ∷ (0xb049dc016abc5e5f, 2020)
    ∷ (0xdc5c5301c56b75f7, 2023)
    ∷ (0x89b9b3e11b6329ba, 2027)
    ∷ (0xac2820d9623bf429, 2030)
    ∷ (0xd732290fbacaf133, 2033)
    ∷ (0x867f59a9d4bed6c0, 2037)
    ∷ (0xa81f301449ee8c70, 2040)
    ∷ (0xd226fc195c6a2f8c, 2043)
    ∷ (0x83585d8fd9c25db7, 2047)
    ∷ (0xa42e74f3d032f525, 2050)
    ∷ (0xcd3a1230c43fb26f, 2053)
    ∷ (0x80444b5e7aa7cf85, 2057)
    ∷ (0xa0555e361951c366, 2060)
    ∷ (0xc86ab5c39fa63440, 2063)
    ∷ (0xfa856334878fc150, 2066)
    ∷ (0x9c935e00d4b9d8d2, 2070)
    ∷ (0xc3b8358109e84f07, 2073)
    ∷ (0xf4a642e14c6262c8, 2076)
    ∷ (0x98e7e9cccfbd7dbd, 2080)
    ∷ (0xbf21e44003acdd2c, 2083)
    ∷ (0xeeea5d5004981478, 2086)
    ∷ (0x95527a5202df0ccb, 2090)
    ∷ (0xbaa718e68396cffd, 2093)
    ∷ (0xe950df20247c83fd, 2096)
    ∷ (0x91d28b7416cdd27e, 2100)
    ∷ (0xb6472e511c81471d, 2103)
    ∷ (0xe3d8f9e563a198e5, 2106)
    ∷ (0x8e679c2f5e44ff8f, 2110)
    ∷ []
