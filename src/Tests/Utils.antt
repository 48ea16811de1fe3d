-- ===== src/Tests/Utils.antt =====
-- The theorems on utils.c and on the reading of commands, at concrete inputs.
use tsn.Base.{digits_value, ◌-◌, ◌+◌, ◌*◌, ◌≤◌, ◌≡◌, refl, arith, some, text}
use tsn.Runtime.Streams.{read_all}
use tsn.Runtime.Streams.Laws.{read_all_lem}
use tsn.Utils.Netmask.{netmask_prefix, inet, inet6}
use tsn.Utils.Netmask.Laws.{ones, mask_word, netmask_prefix-ones, netmask_prefix-mask}
use tsn.Utils.Age.{age_str2num}
use tsn.Utils.Age.Laws.{age_text, age_str2num-age_text}
use tsn.Tests.World.{list_containers, list_containers-IsLawful}

age_str2num-age_text_example :
    age_str2num (age_text (text "1") (text "02") (text "03") (text "04"))
    ≡ ((1 * 24 + 2) * 60 + 3) * 60 + 4 + (2904 * 1 + 60 * 2)
unfolding text digits_value
age_str2num-age_text_example =
    age_str2num-age_text (text "1") (text "02") (text "03") (text "04") (refl, tt)
      (refl, (refl, tt)) (refl, (refl, tt)) (refl, (refl, tt)) (omega arith) (omega arith)
      (omega arith) (omega arith)

netmask_prefix-ones_example :
    (netmask_prefix (inet 65535) ≡ some (ones 32 65535))
    × (netmask_prefix (inet6 65535 255 0 1)
        ≡ some (ones 32 65535 + ones 32 255 + ones 32 0 + ones 32 1))
    × (ones 32 65535 ≤ 32)
    × (ones 32 65535 + ones 32 255 + ones 32 0 + ones 32 1 ≤ 128)
netmask_prefix-ones_example =
    netmask_prefix-ones 65535 255 0 1 (omega arith) (omega arith) (omega arith) (omega arith)

netmask_prefix-mask_example :
    (netmask_prefix (inet (mask_word 24)) ≡ some 24)
    × (netmask_prefix
          (inet6 (mask_word 64) (mask_word (64 - 32)) (mask_word (64 - 64)) (mask_word (64 - 96)))
        ≡ some 64)
netmask_prefix-mask_example = netmask_prefix-mask 24 64 (omega arith) (omega arith)

read_all_lem_example : read_all list_containers 4 (text "ab\ncdefgh\n") ≡ some (text "ab\ncdefgh\n")
unfolding text
read_all_lem_example =
    read_all_lem list_containers list_containers-IsLawful 4 (text "ab\ncdefgh\n") (omega arith)
      (omega arith)
