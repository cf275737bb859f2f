-- ===== src/Base/Fold.antt =====
-- unicode.SimpleFold, by which strings.EqualFold compares two runes: Unicode's simple case folding
-- (CaseFolding.txt, statuses C and S, of Unicode 15.0 in Go 1.21).
use tailpreview.Base.Tests.{leb, ◌==◌, if◌then◌else◌}
use Prim.Native.Nat.{ℕ, ◌+◌, ◌-◌, ◌%◌}
use mathlib.Core.Bool.{◌&&◌}
use mathlib.Core.List.{List, [], ◌∷◌}

-- Every `step`-th rune from `first` to `last` folds into the rune as far from `target`.
pub record Fold : Type 0 where
  pub first : ℕ
  pub last : ℕ
  pub step : ℕ
  pub target : ℕ

abbrev fold : ℕ → ℕ → ℕ → ℕ → Fold
fold a b s t = record { first = a; last = b; step = s; target = t }

abbrev folds : List Fold
folds =
    fold 0x41 0x5A 1 0x61
    ∷ fold 0xB5 0xB5 1 0x3BC
    ∷ fold 0xC0 0xD6 1 0xE0
    ∷ fold 0xD8 0xDE 1 0xF8
    ∷ fold 0x100 0x12E 2 0x101
    ∷ fold 0x132 0x136 2 0x133
    ∷ fold 0x139 0x147 2 0x13A
    ∷ fold 0x14A 0x176 2 0x14B
    ∷ fold 0x178 0x178 1 0xFF
    ∷ fold 0x179 0x17D 2 0x17A
    ∷ fold 0x17F 0x17F 1 0x73
    ∷ fold 0x181 0x181 1 0x253
    ∷ fold 0x182 0x184 2 0x183
    ∷ fold 0x186 0x186 1 0x254
    ∷ fold 0x187 0x187 1 0x188
    ∷ fold 0x189 0x18A 1 0x256
    ∷ fold 0x18B 0x18B 1 0x18C
    ∷ fold 0x18E 0x18E 1 0x1DD
    ∷ fold 0x18F 0x18F 1 0x259
    ∷ fold 0x190 0x190 1 0x25B
    ∷ fold 0x191 0x191 1 0x192
    ∷ fold 0x193 0x193 1 0x260
    ∷ fold 0x194 0x194 1 0x263
    ∷ fold 0x196 0x196 1 0x269
    ∷ fold 0x197 0x197 1 0x268
    ∷ fold 0x198 0x198 1 0x199
    ∷ fold 0x19C 0x19C 1 0x26F
    ∷ fold 0x19D 0x19D 1 0x272
    ∷ fold 0x19F 0x19F 1 0x275
    ∷ fold 0x1A0 0x1A4 2 0x1A1
    ∷ fold 0x1A6 0x1A6 1 0x280
    ∷ fold 0x1A7 0x1A7 1 0x1A8
    ∷ fold 0x1A9 0x1A9 1 0x283
    ∷ fold 0x1AC 0x1AC 1 0x1AD
    ∷ fold 0x1AE 0x1AE 1 0x288
    ∷ fold 0x1AF 0x1AF 1 0x1B0
    ∷ fold 0x1B1 0x1B2 1 0x28A
    ∷ fold 0x1B3 0x1B5 2 0x1B4
    ∷ fold 0x1B7 0x1B7 1 0x292
    ∷ fold 0x1B8 0x1B8 1 0x1B9
    ∷ fold 0x1BC 0x1BC 1 0x1BD
    ∷ fold 0x1C4 0x1C4 1 0x1C6
    ∷ fold 0x1C5 0x1C5 1 0x1C6
    ∷ fold 0x1C7 0x1C7 1 0x1C9
    ∷ fold 0x1C8 0x1C8 1 0x1C9
    ∷ fold 0x1CA 0x1CA 1 0x1CC
    ∷ fold 0x1CB 0x1DB 2 0x1CC
    ∷ fold 0x1DE 0x1EE 2 0x1DF
    ∷ fold 0x1F1 0x1F1 1 0x1F3
    ∷ fold 0x1F2 0x1F4 2 0x1F3
    ∷ fold 0x1F6 0x1F6 1 0x195
    ∷ fold 0x1F7 0x1F7 1 0x1BF
    ∷ fold 0x1F8 0x21E 2 0x1F9
    ∷ fold 0x220 0x220 1 0x19E
    ∷ fold 0x222 0x232 2 0x223
    ∷ fold 0x23A 0x23A 1 0x2C65
    ∷ fold 0x23B 0x23B 1 0x23C
    ∷ fold 0x23D 0x23D 1 0x19A
    ∷ fold 0x23E 0x23E 1 0x2C66
    ∷ fold 0x241 0x241 1 0x242
    ∷ fold 0x243 0x243 1 0x180
    ∷ fold 0x244 0x244 1 0x289
    ∷ fold 0x245 0x245 1 0x28C
    ∷ fold 0x246 0x24E 2 0x247
    ∷ fold 0x345 0x345 1 0x3B9
    ∷ fold 0x370 0x372 2 0x371
    ∷ fold 0x376 0x376 1 0x377
    ∷ fold 0x37F 0x37F 1 0x3F3
    ∷ fold 0x386 0x386 1 0x3AC
    ∷ fold 0x388 0x38A 1 0x3AD
    ∷ fold 0x38C 0x38C 1 0x3CC
    ∷ fold 0x38E 0x38F 1 0x3CD
    ∷ fold 0x391 0x3A1 1 0x3B1
    ∷ fold 0x3A3 0x3AB 1 0x3C3
    ∷ fold 0x3C2 0x3C2 1 0x3C3
    ∷ fold 0x3CF 0x3CF 1 0x3D7
    ∷ fold 0x3D0 0x3D0 1 0x3B2
    ∷ fold 0x3D1 0x3D1 1 0x3B8
    ∷ fold 0x3D5 0x3D5 1 0x3C6
    ∷ fold 0x3D6 0x3D6 1 0x3C0
    ∷ fold 0x3D8 0x3EE 2 0x3D9
    ∷ fold 0x3F0 0x3F0 1 0x3BA
    ∷ fold 0x3F1 0x3F1 1 0x3C1
    ∷ fold 0x3F4 0x3F4 1 0x3B8
    ∷ fold 0x3F5 0x3F5 1 0x3B5
    ∷ fold 0x3F7 0x3F7 1 0x3F8
    ∷ fold 0x3F9 0x3F9 1 0x3F2
    ∷ fold 0x3FA 0x3FA 1 0x3FB
    ∷ fold 0x3FD 0x3FF 1 0x37B
    ∷ fold 0x400 0x40F 1 0x450
    ∷ fold 0x410 0x42F 1 0x430
    ∷ fold 0x460 0x480 2 0x461
    ∷ fold 0x48A 0x4BE 2 0x48B
    ∷ fold 0x4C0 0x4C0 1 0x4CF
    ∷ fold 0x4C1 0x4CD 2 0x4C2
    ∷ fold 0x4D0 0x52E 2 0x4D1
    ∷ fold 0x531 0x556 1 0x561
    ∷ fold 0x10A0 0x10C5 1 0x2D00
    ∷ fold 0x10C7 0x10C7 1 0x2D27
    ∷ fold 0x10CD 0x10CD 1 0x2D2D
    ∷ fold 0x13F8 0x13FD 1 0x13F0
    ∷ fold 0x1C80 0x1C80 1 0x432
    ∷ fold 0x1C81 0x1C81 1 0x434
    ∷ fold 0x1C82 0x1C82 1 0x43E
    ∷ fold 0x1C83 0x1C84 1 0x441
    ∷ fold 0x1C85 0x1C85 1 0x442
    ∷ fold 0x1C86 0x1C86 1 0x44A
    ∷ fold 0x1C87 0x1C87 1 0x463
    ∷ fold 0x1C88 0x1C88 1 0xA64B
    ∷ fold 0x1C90 0x1CBA 1 0x10D0
    ∷ fold 0x1CBD 0x1CBF 1 0x10FD
    ∷ fold 0x1E00 0x1E94 2 0x1E01
    ∷ fold 0x1E9B 0x1E9B 1 0x1E61
    ∷ fold 0x1E9E 0x1E9E 1 0xDF
    ∷ fold 0x1EA0 0x1EFE 2 0x1EA1
    ∷ fold 0x1F08 0x1F0F 1 0x1F00
    ∷ fold 0x1F18 0x1F1D 1 0x1F10
    ∷ fold 0x1F28 0x1F2F 1 0x1F20
    ∷ fold 0x1F38 0x1F3F 1 0x1F30
    ∷ fold 0x1F48 0x1F4D 1 0x1F40
    ∷ fold 0x1F59 0x1F5F 2 0x1F51
    ∷ fold 0x1F68 0x1F6F 1 0x1F60
    ∷ fold 0x1F88 0x1F8F 1 0x1F80
    ∷ fold 0x1F98 0x1F9F 1 0x1F90
    ∷ fold 0x1FA8 0x1FAF 1 0x1FA0
    ∷ fold 0x1FB8 0x1FB9 1 0x1FB0
    ∷ fold 0x1FBA 0x1FBB 1 0x1F70
    ∷ fold 0x1FBC 0x1FBC 1 0x1FB3
    ∷ fold 0x1FBE 0x1FBE 1 0x3B9
    ∷ fold 0x1FC8 0x1FCB 1 0x1F72
    ∷ fold 0x1FCC 0x1FCC 1 0x1FC3
    ∷ fold 0x1FD8 0x1FD9 1 0x1FD0
    ∷ fold 0x1FDA 0x1FDB 1 0x1F76
    ∷ fold 0x1FE8 0x1FE9 1 0x1FE0
    ∷ fold 0x1FEA 0x1FEB 1 0x1F7A
    ∷ fold 0x1FEC 0x1FEC 1 0x1FE5
    ∷ fold 0x1FF8 0x1FF9 1 0x1F78
    ∷ fold 0x1FFA 0x1FFB 1 0x1F7C
    ∷ fold 0x1FFC 0x1FFC 1 0x1FF3
    ∷ fold 0x2126 0x2126 1 0x3C9
    ∷ fold 0x212A 0x212A 1 0x6B
    ∷ fold 0x212B 0x212B 1 0xE5
    ∷ fold 0x2132 0x2132 1 0x214E
    ∷ fold 0x2160 0x216F 1 0x2170
    ∷ fold 0x2183 0x2183 1 0x2184
    ∷ fold 0x24B6 0x24CF 1 0x24D0
    ∷ fold 0x2C00 0x2C2F 1 0x2C30
    ∷ fold 0x2C60 0x2C60 1 0x2C61
    ∷ fold 0x2C62 0x2C62 1 0x26B
    ∷ fold 0x2C63 0x2C63 1 0x1D7D
    ∷ fold 0x2C64 0x2C64 1 0x27D
    ∷ fold 0x2C67 0x2C6B 2 0x2C68
    ∷ fold 0x2C6D 0x2C6D 1 0x251
    ∷ fold 0x2C6E 0x2C6E 1 0x271
    ∷ fold 0x2C6F 0x2C6F 1 0x250
    ∷ fold 0x2C70 0x2C70 1 0x252
    ∷ fold 0x2C72 0x2C72 1 0x2C73
    ∷ fold 0x2C75 0x2C75 1 0x2C76
    ∷ fold 0x2C7E 0x2C7F 1 0x23F
    ∷ fold 0x2C80 0x2CE2 2 0x2C81
    ∷ fold 0x2CEB 0x2CED 2 0x2CEC
    ∷ fold 0x2CF2 0x2CF2 1 0x2CF3
    ∷ fold 0xA640 0xA66C 2 0xA641
    ∷ fold 0xA680 0xA69A 2 0xA681
    ∷ fold 0xA722 0xA72E 2 0xA723
    ∷ fold 0xA732 0xA76E 2 0xA733
    ∷ fold 0xA779 0xA77B 2 0xA77A
    ∷ fold 0xA77D 0xA77D 1 0x1D79
    ∷ fold 0xA77E 0xA786 2 0xA77F
    ∷ fold 0xA78B 0xA78B 1 0xA78C
    ∷ fold 0xA78D 0xA78D 1 0x265
    ∷ fold 0xA790 0xA792 2 0xA791
    ∷ fold 0xA796 0xA7A8 2 0xA797
    ∷ fold 0xA7AA 0xA7AA 1 0x266
    ∷ fold 0xA7AB 0xA7AB 1 0x25C
    ∷ fold 0xA7AC 0xA7AC 1 0x261
    ∷ fold 0xA7AD 0xA7AD 1 0x26C
    ∷ fold 0xA7AE 0xA7AE 1 0x26A
    ∷ fold 0xA7B0 0xA7B0 1 0x29E
    ∷ fold 0xA7B1 0xA7B1 1 0x287
    ∷ fold 0xA7B2 0xA7B2 1 0x29D
    ∷ fold 0xA7B3 0xA7B3 1 0xAB53
    ∷ fold 0xA7B4 0xA7C2 2 0xA7B5
    ∷ fold 0xA7C4 0xA7C4 1 0xA794
    ∷ fold 0xA7C5 0xA7C5 1 0x282
    ∷ fold 0xA7C6 0xA7C6 1 0x1D8E
    ∷ fold 0xA7C7 0xA7C9 2 0xA7C8
    ∷ fold 0xA7D0 0xA7D0 1 0xA7D1
    ∷ fold 0xA7D6 0xA7D8 2 0xA7D7
    ∷ fold 0xA7F5 0xA7F5 1 0xA7F6
    ∷ fold 0xAB70 0xABBF 1 0x13A0
    ∷ fold 0xFF21 0xFF3A 1 0xFF41
    ∷ fold 0x10400 0x10427 1 0x10428
    ∷ fold 0x104B0 0x104D3 1 0x104D8
    ∷ fold 0x10570 0x1057A 1 0x10597
    ∷ fold 0x1057C 0x1058A 1 0x105A3
    ∷ fold 0x1058C 0x10592 1 0x105B3
    ∷ fold 0x10594 0x10595 1 0x105BB
    ∷ fold 0x10C80 0x10CB2 1 0x10CC0
    ∷ fold 0x118A0 0x118BF 1 0x118C0
    ∷ fold 0x16E40 0x16E5F 1 0x16E60
    ∷ fold 0x1E900 0x1E921 1 0x1E922
    ∷ []

unfoldable pub fold_by : List Fold → ℕ → ℕ
fold_by [] c = c
fold_by (f ∷ fs) c =
    let other : ℕ = fold_by fs c in
    if leb f.first c && leb c f.last && (c - f.first) % f.step == 0
    then f.target + (c - f.first)
    else other

-- The one rune that stands for all that are equal under folding.
unfoldable pub fold_rune : ℕ → ℕ
unfolding fold_by
fold_rune c = fold_by folds c
