-- ===== src/Pcble/Spi.antt =====
-- `spi` of pcble_backend/poc/protocol.c: the bytes of the emulated flash memory.
use capture2cloud.Base.{ℕ, ◌-◌, List, [], ◌∷◌, Bool, ltb, leb, ◌==◌, ◌&&◌, if◌then◌else◌, get_or}
use capture2cloud.Pcble.Protocol.{ProState, type_code, is_pro, is_left, is_right}

abbrev pub pro_sticks : List ℕ
pro_sticks =
    0xba ∷ 0xf5 ∷ 0x62 ∷ 0x6f ∷ 0xc8 ∷ 0x77 ∷ 0xed ∷ 0x95 ∷ 0x5b ∷ 0x16 ∷ 0xd8 ∷ 0x7d ∷ 0xf2 ∷ 0xb5
    ∷ 0x5f ∷ 0x86 ∷ 0x65 ∷ 0x5e ∷ 0x0f ∷ []

abbrev pro_params : List ℕ
pro_params =
    0x19 ∷ 0xd0 ∷ 0x4c ∷ 0xae ∷ 0x40 ∷ 0xe1 ∷ 0 ∷ 0 ∷ 0 ∷ 0 ∷ 0 ∷ 0 ∷ 0xff ∷ 0xff ∷ 0xff ∷ 0xff
    ∷ 0xff ∷ 0xff ∷ []

abbrev pro_config : List ℕ
pro_config =
    0x5e ∷ 0x01 ∷ 0 ∷ 0 ∷ 0xf1 ∷ 0x0f ∷ 0x19 ∷ 0xd0 ∷ 0x4c ∷ 0xae ∷ 0x40 ∷ 0xe1 ∷ 0 ∷ 0 ∷ 0 ∷ 0 ∷ 0
    ∷ 0 ∷ 0xff ∷ 0xff ∷ 0xff ∷ 0xff ∷ 0xff ∷ 0xff ∷ []

abbrev pub joycon_sticks : List ℕ
joycon_sticks =
    0xba ∷ 0xf5 ∷ 0x62 ∷ 0x6f ∷ 0xc8 ∷ 0x77 ∷ 0xed ∷ 0x95 ∷ 0x5b ∷ 0x16 ∷ 0xd8 ∷ 0x7d ∷ 0xf2 ∷ 0xb5
    ∷ 0x5f ∷ 0x86 ∷ 0x65 ∷ 0x5e ∷ []

abbrev sensor : List ℕ
sensor =
    0xd3 ∷ 0xff ∷ 0xd5 ∷ 0xff ∷ 0x55 ∷ 0x01 ∷ 0x00 ∷ 0x40 ∷ 0x00 ∷ 0x40 ∷ 0x00 ∷ 0x40 ∷ 0x19 ∷ 0x00
    ∷ 0xdd ∷ 0xff ∷ 0xdc ∷ 0xff ∷ 0x3b ∷ 0x34 ∷ 0x3b ∷ 0x34 ∷ 0x3b ∷ 0x34 ∷ []

abbrev params : List ℕ
params =
    0x0f ∷ 0x30 ∷ 0x61 ∷ 0x96 ∷ 0x30 ∷ 0xf3 ∷ 0xd4 ∷ 0x14 ∷ 0x54 ∷ 0x41 ∷ 0x15 ∷ 0x54 ∷ 0xc7 ∷ 0x79
    ∷ 0x9c ∷ 0x33 ∷ 0x36 ∷ 0x63 ∷ []

abbrev left_config : List ℕ
left_config = 0x5e ∷ 0x01 ∷ 0 ∷ 0 ∷ 0xf1 ∷ 0x0f ∷ []

abbrev right_config : List ℕ
right_config = 0x5e ∷ 0x01 ∷ 0 ∷ 0 ∷ 0x0f ∷ 0xf0 ∷ []

-- `a >= lo && a < hi`.
abbrev within : ℕ → ℕ → ℕ → Bool
within a lo hi = leb lo a && ltb a hi

abbrev at : List ℕ → ℕ → ℕ
at table i = get_or table i 0

unfoldable pub spi_pro : ProState → ℕ → ℕ
spi_pro s a =
    if within a 0x603d 0x6050
    then at pro_sticks (a - 0x603d)
    else if within a 0x6080 0x6098
    then at pro_config (a - 0x6080)
    else if within a 0x6098 0x60aa
    then at pro_params (a - 0x6098)
    else if within a 0x6050 0x6053
    then at s.body_color (a - 0x6050)
    else if within a 0x6053 0x6056
    then at s.button_color (a - 0x6053)
    else if within a 0x6056 0x6059
    then at s.left_grip_color (a - 0x6056)
    else if within a 0x6059 0x605c
    then at s.right_grip_color (a - 0x6059)
    else if within a 0x605c 0x6068
    then 0
    else if within a 0x8010 0x8040
    then 0xff
    else if within a 0x6020 0x6038
    then 0
    else 0xff

unfoldable pub spi_joycon : ProState → ℕ → ℕ
spi_joycon s a =
    if within a 0x603d 0x6046 && is_right s.type
    then 0xff
    else if within a 0x6046 0x604f && is_left s.type
    then 0xff
    else if within a 0x603d 0x604f
    then at joycon_sticks (a - 0x603d)
    else if within a 0x6020 0x6038
    then at sensor (a - 0x6020)
    else if within a 0x6080 0x6086
    then at (if is_left s.type then left_config else right_config) (a - 0x6080)
    else if within a 0x6086 0x6098
    then (if a == 0x6089 then 0xae else at params (a - 0x6086))
    else if within a 0x6098 0x60aa
    then (if a == 0x609b then 0xae else at params (a - 0x6098))
    else if within a 0x6050 0x6053
    then at s.body_color (a - 0x6050)
    else if within a 0x6053 0x6056
    then at s.button_color (a - 0x6053)
    else 0xff

unfoldable pub spi : ProState → ℕ → ℕ
unfolding spi_pro spi_joycon
spi s a =
    if a == 0x6012
    then type_code s.type
    else if a == 0x6013
    then 0xa0
    else if a == 0x601b
    then (if is_pro s.type then 0x02 else 0x01)
    else if is_pro s.type
    then spi_pro s a
    else spi_joycon s a
