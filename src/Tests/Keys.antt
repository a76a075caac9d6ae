-- ===== src/Tests/Keys.antt =====
-- A key of 32 bytes in its page.
use winluks.Base.{◌≡◌, refl, true, ◌++◌, drop, replicate}
use winluks.Error.{ok}
use winluks.Crypto.{new_volume_key}
use winluks.Crypto.KeyPage.{KeyPage, new_page, key_bytes, drop_page, AllWiped, new_page-AllWiped}

abbrev five_key : KeyPage
five_key = record { page = replicate 32 5 ++ drop 32 (replicate 4096 0); size = 32; locked = true }

made : new_page true true (replicate 32 5) ≡ ok five_key
unfolding new_page
made = refl

new_page-AllWiped_example :
    (new_volume_key true true (replicate 32 5)
      ≡ ok (record { bytes = key_bytes five_key; locked = true }))
    × AllWiped (drop_page five_key)
new_page-AllWiped_example = new_page-AllWiped true true (replicate 32 5) five_key made
