-- ===== src/Angles/Constants.antt =====
-- The constant arrays of elevations and azimuth offsets in pandarGeneral_internal.cc, pandarQT.h and
-- pandarXT.h, in thousandths of a degree.
use go2_setup.Shared.{ℕ, List, [], ◌∷◌, ℤ, sub_ℕ}

abbrev pub minus : ℕ → ℤ
minus n = sub_ℕ 0 n

abbrev plus : ℕ → ℤ
plus n = sub_ℕ n 0

-- `pandar40p_elev_angle_map`
abbrev pub pandar40p_elev_angle_map : List ℤ
pandar40p_elev_angle_map =
    plus 15000
    ∷ plus 11000
    ∷ plus 8000
    ∷ plus 5000
    ∷ plus 3000
    ∷ plus 2000
    ∷ plus 1670
    ∷ plus 1330
    ∷ plus 1000
    ∷ plus 670
    ∷ plus 330
    ∷ plus 0
    ∷ minus 330
    ∷ minus 670
    ∷ minus 1000
    ∷ minus 1330
    ∷ minus 1660
    ∷ minus 2000
    ∷ minus 2330
    ∷ minus 2670
    ∷ minus 3000
    ∷ minus 3330
    ∷ minus 3670
    ∷ minus 4000
    ∷ minus 4330
    ∷ minus 4670
    ∷ minus 5000
    ∷ minus 5330
    ∷ minus 5670
    ∷ minus 6000
    ∷ minus 7000
    ∷ minus 8000
    ∷ minus 9000
    ∷ minus 10000
    ∷ minus 11000
    ∷ minus 12000
    ∷ minus 13000
    ∷ minus 14000
    ∷ minus 19000
    ∷ minus 25000
    ∷ []

-- `pandar40p_horizatal_azimuth_offset_map`
abbrev pub pandar40p_horizatal_azimuth_offset_map : List ℤ
pandar40p_horizatal_azimuth_offset_map =
    minus 1042
    ∷ minus 1042
    ∷ minus 1042
    ∷ minus 1042
    ∷ minus 1042
    ∷ minus 1042
    ∷ plus 3125
    ∷ minus 5208
    ∷ minus 1042
    ∷ plus 3125
    ∷ minus 5208
    ∷ minus 1042
    ∷ plus 3125
    ∷ minus 5208
    ∷ minus 1042
    ∷ plus 3125
    ∷ minus 5208
    ∷ minus 1042
    ∷ plus 3125
    ∷ minus 5208
    ∷ minus 1042
    ∷ plus 3125
    ∷ minus 5208
    ∷ minus 1042
    ∷ plus 3125
    ∷ minus 5208
    ∷ minus 1042
    ∷ plus 3125
    ∷ minus 5208
    ∷ minus 1042
    ∷ minus 1042
    ∷ minus 1042
    ∷ minus 1042
    ∷ minus 1042
    ∷ minus 1042
    ∷ minus 1042
    ∷ minus 1042
    ∷ minus 1042
    ∷ minus 1042
    ∷ minus 1042
    ∷ []

-- `pandarGeneral_elev_angle_map`
abbrev pub pandar_general_elev_angle_map : List ℤ
pandar_general_elev_angle_map =
    plus 14882
    ∷ plus 11032
    ∷ plus 8059
    ∷ plus 5057
    ∷ plus 3040
    ∷ plus 2028
    ∷ plus 1860
    ∷ plus 1688
    ∷ plus 1522
    ∷ plus 1351
    ∷ plus 1184
    ∷ plus 1013
    ∷ plus 846
    ∷ plus 675
    ∷ plus 508
    ∷ plus 337
    ∷ plus 169
    ∷ plus 0
    ∷ minus 169
    ∷ minus 337
    ∷ minus 508
    ∷ minus 675
    ∷ minus 845
    ∷ minus 1013
    ∷ minus 1184
    ∷ minus 1351
    ∷ minus 1522
    ∷ minus 1688
    ∷ minus 1860
    ∷ minus 2028
    ∷ minus 2198
    ∷ minus 2365
    ∷ minus 2536
    ∷ minus 2700
    ∷ minus 2873
    ∷ minus 3040
    ∷ minus 3210
    ∷ minus 3375
    ∷ minus 3548
    ∷ minus 3712
    ∷ minus 3884
    ∷ minus 4050
    ∷ minus 4221
    ∷ minus 4385
    ∷ minus 4558
    ∷ minus 4720
    ∷ minus 4892
    ∷ minus 5057
    ∷ minus 5229
    ∷ minus 5391
    ∷ minus 5565
    ∷ minus 5726
    ∷ minus 5898
    ∷ minus 6061
    ∷ minus 7063
    ∷ minus 8059
    ∷ minus 9060
    ∷ minus 9885
    ∷ minus 11032
    ∷ minus 12006
    ∷ minus 12974
    ∷ minus 13930
    ∷ minus 18889
    ∷ minus 24897
    ∷ []

-- `pandarGeneral_horizatal_azimuth_offset_map`
abbrev pub pandar_general_horizatal_azimuth_offset_map : List ℤ
pandar_general_horizatal_azimuth_offset_map =
    minus 1042
    ∷ minus 1042
    ∷ minus 1042
    ∷ minus 1042
    ∷ minus 1042
    ∷ minus 1042
    ∷ plus 1042
    ∷ plus 3125
    ∷ plus 5208
    ∷ minus 5208
    ∷ minus 3125
    ∷ minus 1042
    ∷ plus 1042
    ∷ plus 3125
    ∷ plus 5208
    ∷ minus 5208
    ∷ minus 3125
    ∷ minus 1042
    ∷ plus 1042
    ∷ plus 3125
    ∷ plus 5208
    ∷ minus 5208
    ∷ minus 3125
    ∷ minus 1042
    ∷ plus 1042
    ∷ plus 3125
    ∷ plus 5208
    ∷ minus 5208
    ∷ minus 3125
    ∷ minus 1042
    ∷ plus 1042
    ∷ plus 3125
    ∷ plus 5208
    ∷ minus 5208
    ∷ minus 3125
    ∷ minus 1042
    ∷ plus 1042
    ∷ plus 3125
    ∷ plus 5208
    ∷ minus 5208
    ∷ minus 3125
    ∷ minus 1042
    ∷ plus 1042
    ∷ plus 3125
    ∷ plus 5208
    ∷ minus 5208
    ∷ minus 3125
    ∷ minus 1042
    ∷ plus 1042
    ∷ plus 3125
    ∷ plus 5208
    ∷ minus 5208
    ∷ minus 3125
    ∷ minus 1042
    ∷ minus 1042
    ∷ minus 1042
    ∷ minus 1042
    ∷ minus 1042
    ∷ minus 1042
    ∷ minus 1042
    ∷ minus 1042
    ∷ minus 1042
    ∷ minus 1042
    ∷ minus 1042
    ∷ []

-- `pandar20_elev_angle_map`
abbrev pub pandar20_elev_angle_map : List ℤ
pandar20_elev_angle_map =
    plus 8000
    ∷ plus 5000
    ∷ plus 3000
    ∷ plus 2000
    ∷ plus 1670
    ∷ plus 1000
    ∷ plus 330
    ∷ minus 330
    ∷ minus 1000
    ∷ minus 2000
    ∷ minus 3000
    ∷ minus 4000
    ∷ minus 5000
    ∷ minus 6000
    ∷ minus 8000
    ∷ minus 10000
    ∷ minus 12000
    ∷ minus 14000
    ∷ minus 19000
    ∷ minus 25000
    ∷ []

-- `pandar20_horizatal_azimuth_offset_map`
abbrev pub pandar20_horizatal_azimuth_offset_map : List ℤ
pandar20_horizatal_azimuth_offset_map =
    minus 1042
    ∷ minus 1042
    ∷ minus 1042
    ∷ minus 1042
    ∷ plus 3125
    ∷ minus 1042
    ∷ minus 5208
    ∷ plus 3125
    ∷ minus 1042
    ∷ minus 1042
    ∷ minus 1042
    ∷ minus 1042
    ∷ minus 1042
    ∷ minus 1042
    ∷ minus 1042
    ∷ minus 1042
    ∷ minus 1042
    ∷ minus 1042
    ∷ minus 1042
    ∷ minus 1042
    ∷ []

-- `pandarQT_elev_angle_map`
abbrev pub pandar_qt_elev_angle_map : List ℤ
pandar_qt_elev_angle_map =
    minus 52121
    ∷ minus 49785
    ∷ minus 47577
    ∷ minus 45477
    ∷ minus 43465
    ∷ minus 41528
    ∷ minus 39653
    ∷ minus 37831
    ∷ minus 36055
    ∷ minus 34320
    ∷ minus 32619
    ∷ minus 30950
    ∷ minus 29308
    ∷ minus 27690
    ∷ minus 26094
    ∷ minus 24517
    ∷ minus 22964
    ∷ minus 21420
    ∷ minus 19889
    ∷ minus 18372
    ∷ minus 16865
    ∷ minus 15368
    ∷ minus 13880
    ∷ minus 12399
    ∷ minus 10925
    ∷ minus 9457
    ∷ minus 7994
    ∷ minus 6535
    ∷ minus 5079
    ∷ minus 3626
    ∷ minus 2175
    ∷ minus 725
    ∷ plus 725
    ∷ plus 2175
    ∷ plus 3626
    ∷ plus 5079
    ∷ plus 6534
    ∷ plus 7993
    ∷ plus 9456
    ∷ plus 10923
    ∷ plus 12397
    ∷ plus 13877
    ∷ plus 15365
    ∷ plus 16861
    ∷ plus 18368
    ∷ plus 19885
    ∷ plus 21415
    ∷ plus 22959
    ∷ plus 24524
    ∷ plus 26101
    ∷ plus 27697
    ∷ plus 29315
    ∷ plus 30957
    ∷ plus 32627
    ∷ plus 34328
    ∷ plus 36064
    ∷ plus 37840
    ∷ plus 39662
    ∷ plus 41537
    ∷ plus 43475
    ∷ plus 45487
    ∷ plus 47587
    ∷ plus 49795
    ∷ plus 52133
    ∷ []

-- `pandarQT_horizatal_azimuth_offset_map`
abbrev pub pandar_qt_horizatal_azimuth_offset_map : List ℤ
pandar_qt_horizatal_azimuth_offset_map =
    plus 8736
    ∷ plus 8314
    ∷ plus 7964
    ∷ plus 7669
    ∷ plus 7417
    ∷ plus 7198
    ∷ plus 7007
    ∷ plus 6838
    ∷ plus 6688
    ∷ plus 6554
    ∷ plus 6434
    ∷ plus 6326
    ∷ plus 6228
    ∷ plus 6140
    ∷ plus 6059
    ∷ plus 5987
    ∷ minus 5270
    ∷ minus 5216
    ∷ minus 5167
    ∷ minus 5123
    ∷ minus 5083
    ∷ minus 5047
    ∷ minus 5016
    ∷ minus 4988
    ∷ minus 4963
    ∷ minus 4942
    ∷ minus 4924
    ∷ minus 4910
    ∷ minus 4898
    ∷ minus 4889
    ∷ minus 4884
    ∷ minus 4881
    ∷ plus 5493
    ∷ plus 5496
    ∷ plus 5502
    ∷ plus 5512
    ∷ plus 5525
    ∷ plus 5541
    ∷ plus 5561
    ∷ plus 5584
    ∷ plus 5611
    ∷ plus 5642
    ∷ plus 5676
    ∷ plus 5716
    ∷ plus 5759
    ∷ plus 5808
    ∷ plus 5862
    ∷ plus 5921
    ∷ minus 5330
    ∷ minus 5396
    ∷ minus 5469
    ∷ minus 5550
    ∷ minus 5640
    ∷ minus 5740
    ∷ minus 5850
    ∷ minus 5974
    ∷ minus 6113
    ∷ minus 6269
    ∷ minus 6447
    ∷ minus 6651
    ∷ minus 6887
    ∷ minus 7163
    ∷ minus 7493
    ∷ minus 7892
    ∷ []

-- `pandarXT_elev_angle_map`
abbrev pub pandar_xt_elev_angle_map : List ℤ
pandar_xt_elev_angle_map =
    plus 15000
    ∷ plus 14000
    ∷ plus 13000
    ∷ plus 12000
    ∷ plus 11000
    ∷ plus 10000
    ∷ plus 9000
    ∷ plus 8000
    ∷ plus 7000
    ∷ plus 6000
    ∷ plus 5000
    ∷ plus 4000
    ∷ plus 3000
    ∷ plus 2000
    ∷ plus 1000
    ∷ plus 0
    ∷ minus 1000
    ∷ minus 2000
    ∷ minus 3000
    ∷ minus 4000
    ∷ minus 5000
    ∷ minus 6000
    ∷ minus 7000
    ∷ minus 8000
    ∷ minus 9000
    ∷ minus 10000
    ∷ minus 11000
    ∷ minus 12000
    ∷ minus 13000
    ∷ minus 14000
    ∷ minus 15000
    ∷ minus 16000
    ∷ []

-- `pandarXT_horizatal_azimuth_offset_map`
abbrev pub pandar_xt_horizatal_azimuth_offset_map : List ℤ
pandar_xt_horizatal_azimuth_offset_map =
    plus 0
    ∷ plus 0
    ∷ plus 0
    ∷ plus 0
    ∷ plus 0
    ∷ plus 0
    ∷ plus 0
    ∷ plus 0
    ∷ plus 0
    ∷ plus 0
    ∷ plus 0
    ∷ plus 0
    ∷ plus 0
    ∷ plus 0
    ∷ plus 0
    ∷ plus 0
    ∷ plus 0
    ∷ plus 0
    ∷ plus 0
    ∷ plus 0
    ∷ plus 0
    ∷ plus 0
    ∷ plus 0
    ∷ plus 0
    ∷ plus 0
    ∷ plus 0
    ∷ plus 0
    ∷ plus 0
    ∷ plus 0
    ∷ plus 0
    ∷ plus 0
    ∷ plus 0
    ∷ []

-- `pandarXTM_elev_angle_map`
abbrev pub pandar_xtm_elev_angle_map : List ℤ
pandar_xtm_elev_angle_map =
    plus 19500
    ∷ plus 18200
    ∷ plus 16900
    ∷ plus 15600
    ∷ plus 14300
    ∷ plus 13000
    ∷ plus 11700
    ∷ plus 10400
    ∷ plus 9100
    ∷ plus 7800
    ∷ plus 6500
    ∷ plus 5200
    ∷ plus 3900
    ∷ plus 2600
    ∷ plus 1300
    ∷ plus 0
    ∷ minus 1300
    ∷ minus 2600
    ∷ minus 3900
    ∷ minus 5200
    ∷ minus 6500
    ∷ minus 7800
    ∷ minus 9100
    ∷ minus 10400
    ∷ minus 11700
    ∷ minus 13000
    ∷ minus 14300
    ∷ minus 15600
    ∷ minus 16900
    ∷ minus 18200
    ∷ minus 19500
    ∷ minus 20800
    ∷ []

-- `pandarXTM_horizatal_azimuth_offset_map`
abbrev pub pandar_xtm_horizatal_azimuth_offset_map : List ℤ
pandar_xtm_horizatal_azimuth_offset_map =
    plus 0
    ∷ plus 0
    ∷ plus 0
    ∷ plus 0
    ∷ plus 0
    ∷ plus 0
    ∷ plus 0
    ∷ plus 0
    ∷ plus 0
    ∷ plus 0
    ∷ plus 0
    ∷ plus 0
    ∷ plus 0
    ∷ plus 0
    ∷ plus 0
    ∷ plus 0
    ∷ plus 0
    ∷ plus 0
    ∷ plus 0
    ∷ plus 0
    ∷ plus 0
    ∷ plus 0
    ∷ plus 0
    ∷ plus 0
    ∷ plus 0
    ∷ plus 0
    ∷ plus 0
    ∷ plus 0
    ∷ plus 0
    ∷ plus 0
    ∷ plus 0
    ∷ plus 0
    ∷ []
