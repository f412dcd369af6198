-- ===== src/NvStorage/Tests.antt =====
-- Runs of the model of vboot_nvstorage.c, and its theorems at concrete blocks.
use futility.Prelude.{◌≡◌, refl, arith, false, some, List, [], ◌∷◌}
use futility.NvStorage.Crc.{crc8}
use futility.NvStorage.Defs.{VbNvContext, write, get, nv_set, setup, teardown, put}
use futility.NvStorage.Defs.{kernel_field, fw_result, fw_prev_result, debug_reset_mode}
use futility.NvStorage.Defs.{try_b_count}
use futility.NvStorage.Access.{IsBytes}
use futility.NvStorage.Laws.{SetOutcome, get-nv_set, get-nv_set_ne, nv_set-SetOutcome}
use futility.NvStorage.Session.{IsSound, Request, set_all, setup-IsSound, nv_set-IsSound}
use futility.NvStorage.Session.{setup-teardown, get-next_boot}

abbrev blank : VbNvContext
blank = record { raw = λ _. 0; raw_changed = false; regenerate_crc = false }

abbrev used : VbNvContext
used = record { raw = write (λ _. 0x55) 1 0xA7; raw_changed = false; regenerate_crc = false }

abbrev requests : List Request
requests = (kernel_field, 0x12345678) ∷ (fw_prev_result, 9) ∷ (debug_reset_mode, 7) ∷ []

blank-IsBytes : IsBytes blank.raw
blank-IsBytes i = omega arith

used-IsBytes : IsBytes used.raw
used-IsBytes i = ground arith

crc8_test : crc8 (0x31 ∷ 0x32 ∷ 0x33 ∷ []) ≡ 0xC0
unfolding crc8
crc8_test = refl

round_trip : get (set_all (setup blank) requests).raw kernel_field ≡ some 0x12345678
unfolding get set_all setup nv_set put
round_trip = refl

nv_set-SetOutcome_test : SetOutcome used try_b_count 20 (nv_set used try_b_count 20)
nv_set-SetOutcome_test = nv_set-SetOutcome used try_b_count 20 used-IsBytes (omega arith)

get-nv_set_example :
    (get (nv_set used fw_prev_result 2).0.raw fw_prev_result ≡ some 2)
    × ((nv_set used fw_prev_result 2).1 ≡ 0)
get-nv_set_example = get-nv_set used fw_prev_result 2 used-IsBytes (omega arith) (λ e. cc)

get-nv_set_ne_test : get (nv_set used fw_prev_result 2).0.raw fw_result ≡ get used.raw fw_result
get-nv_set_ne_test =
    get-nv_set_ne used fw_prev_result fw_result 2 used-IsBytes (omega arith) (λ e. ground arith)

sound : IsSound (setup blank)
sound = setup-IsSound blank blank-IsBytes

setup-IsSound_test : IsSound (setup used)
setup-IsSound_test = setup-IsSound used used-IsBytes

nv_set-IsSound_test : IsSound (nv_set (setup blank) debug_reset_mode 1).0
nv_set-IsSound_test = nv_set-IsSound (setup blank) debug_reset_mode 1 (omega arith) sound

setup-teardown_example :
    ((setup (teardown (setup blank))).raw ≡ (teardown (setup blank)).raw)
    × ((setup (teardown (setup blank))).regenerate_crc ≡ false)
setup-teardown_example = setup-teardown (setup blank) sound

get-next_boot_example :
    get (setup (teardown (set_all (setup blank) requests))).raw kernel_field
    ≡ get (set_all (setup blank) requests).raw kernel_field
get-next_boot_example = get-next_boot blank requests kernel_field blank-IsBytes (omega arith)
