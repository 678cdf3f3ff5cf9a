-- ===== src/Master/Writes.antt =====
-- The write requests of src/master/master.ts: FC 5, 6, 8, 15, 16 and 22. Their responses are echoes,
-- and resolve to the value that the caller gave.
use njs_modbus.Common.{ℕ, ◌+◌, ◌*◌, ◌/◌, ◌%◌, List, ◌∷◌, ◌++◌, length, take, ◌==◌, if◌then◌else◌}
use njs_modbus.Slave.Types.{coil_on, coil_off, diagnostics_return_query_data}
use njs_modbus.Slave.Pdu.{pack_loop, registers_loop}
use njs_modbus.Master.{Sent, Settled, on_sent, settle, word, two_words, validate_echo_response}

-- The response of a method that sent `request`, where `expected` is to come back.
unfoldable pub echo_response {ℓ} : {A : Type ℓ} → ℕ → ℕ → List ℕ → A → Sent → Settled A
echo_response unit fc expected value =
    on_sent unit fc λ frame. settle (validate_echo_response frame unit fc expected) value

abbrev pub single_coil_request : ℕ → ℕ → List ℕ
single_coil_request address value = two_words address (if value == 0 then coil_off else coil_on)

abbrev pub single_register_request : ℕ → ℕ → List ℕ
single_register_request address value = two_words address value

abbrev pub diagnostics_request : ℕ → List ℕ
diagnostics_request value = two_words diagnostics_return_query_data value

abbrev pub mask_write_request : ℕ → ℕ → ℕ → List ℕ
mask_write_request address and_mask or_mask = two_words address and_mask ++ word or_mask

unfoldable pub coils_request : ℕ → List ℕ → List ℕ
coils_request address values =
    let n = length values in
    two_words address n ++ (n + 7) / 8 % 256 ∷ pack_loop values (n % 8) 0 (n / 8)

unfoldable pub registers_request : ℕ → List ℕ → List ℕ
registers_request address values =
    let n = length values in two_words address n ++ n * 2 % 256 ∷ registers_loop values 0 n

-- FC 5, 6, 8 and 22 expect the whole request back.
abbrev pub whole_response {ℓ} : {A : Type ℓ} → ℕ → ℕ → List ℕ → A → Sent → Settled A
whole_response unit fc request value = echo_response unit fc request value

-- FC 15 and 16 expect its first four bytes.
abbrev pub head_response {ℓ} : {A : Type ℓ} → ℕ → ℕ → List ℕ → A → Sent → Settled A
head_response unit fc request value = echo_response unit fc (take 4 request) value
