-- ===== src/Transfer.antt =====
-- File transmission in EN_Functions.cpp (`SendFile`, `RecvFile`, `ForwardFile`) and the status object
-- of EN_FileTransmissionStatus.cpp that they keep up to date.
pub mod Send
pub mod Recv
pub mod Forward
mod Chunks
mod Tests
use easy_network.Base.{
  ℕ, zero, suc, ◌+◌, ◌-◌, ◌/◌, ◌%◌, ◌^◌, Bool, true, false, List, [], ◌∷◌, ◌++◌, Bytes, length,
  take, drop, ◌==◌, if◌then◌else◌, ◌&&◌,
}
use easy_network.Net.{SendResult, sent, send_failed, RecvResult, got, recv_failed}

-- `SendFileBufLen`
abbrev pub buf_len : ℕ
buf_len = 4096

-- uint64_t subtraction.
abbrev pub sub64 : ℕ → ℕ → ℕ
sub64 a b = (a + 2 ^ 64 - b) % 2 ^ 64

-- The four values that a progress function is called with.
pub record Progress : Type 0 where
  pub transfered : ℕ
  pub size : ℕ
  pub speed : ℕ
  pub eta : ℕ

-- EN_FileTransmissionStatus, with the calls of its progress function so far.
pub record Status : Type 0 where
  pub transfered_bytes : ℕ
  pub file_size : ℕ
  pub transmission_speed : ℕ
  pub transmission_eta : ℕ
  pub is_transmission_ended : Bool
  pub is_transmission_succeed : Bool
  pub is_set_progress_function : Bool
  pub progress_calls : List Progress

abbrev pub new_status : Status
new_status = record {
  transfered_bytes = 0;
  file_size = 0;
  transmission_speed = 0;
  transmission_eta = 0;
  is_transmission_ended = false;
  is_transmission_succeed = false;
  is_set_progress_function = false;
  progress_calls = [];
}

pub set_transfered_bytes : ℕ → Status → Status
set_transfered_bytes n st = record st { transfered_bytes = n }

pub set_file_size : ℕ → Status → Status
set_file_size n st = record st { file_size = n }

pub set_transmission_speed : ℕ → Status → Status
set_transmission_speed n st = record st { transmission_speed = n }

pub set_transmission_eta : ℕ → Status → Status
set_transmission_eta n st = record st { transmission_eta = n }

pub set_is_transmission_ended : Bool → Status → Status
set_is_transmission_ended b st = record st { is_transmission_ended = b }

pub set_is_transmission_succeed : Bool → Status → Status
set_is_transmission_succeed b st = record st { is_transmission_succeed = b }

pub set_progress_function : Status → Status
set_progress_function st = record st { is_set_progress_function = true }

unfoldable pub invoke_progress_function : Status → Status
invoke_progress_function st =
    if st.is_set_progress_function
    then record st {
      progress_calls =
          st.progress_calls
          ++ (record {
            transfered = st.transfered_bytes;
            size = st.file_size;
            speed = st.transmission_speed;
            eta = st.transmission_eta;
          }
              ∷ []);
    }
    else st

-- What every way out of the three functions does with the status.
unfoldable pub finish : Bool → Status → Status
unfolding set_is_transmission_ended set_is_transmission_succeed
finish ok st = set_is_transmission_ended true (set_is_transmission_succeed ok st)

-- What other threads and the clock show in round `i` of a loop: `isStop.load()`, `timer.IsSleep()`.
pub record Env : Type 0 where
  pub stop : ℕ → Bool
  pub asleep : ℕ → Bool

-- "Call progress function": at `now` bytes of `size`, with `shown` as the number to report. Returns
-- the bytes at the last report too.
pub report : Bool → ℕ → ℕ → ℕ → ℕ → Status → Status × ℕ
unfolding set_transfered_bytes set_transmission_speed set_transmission_eta invoke_progress_function
report asleep size now last shown st =
    let speed = sub64 now last in
    let st₁ = set_transmission_speed speed (set_transfered_bytes shown st) in
    let st₂ = if speed == 0 then st₁ else set_transmission_eta (sub64 size now / speed) st₁ in
    if asleep then (st, last) else (invoke_progress_function st₂, now)

-- The last report, of the whole size.
unfoldable pub report_all : ℕ → Status → Status
unfolding set_transfered_bytes set_transmission_speed set_transmission_eta invoke_progress_function
report_all size st =
    invoke_progress_function
      (set_transmission_eta 0 (set_transmission_speed 0 (set_transfered_bytes size st)))

-- `file.read(buf, SendFileBufLen)`: the next bytes of the file over the front of the buffer.
unfoldable pub read_into : Bytes → Bytes → Bytes
read_into buf rest = take buf_len rest ++ drop (length (take buf_len rest)) buf

-- `sendedBytes == SendFileBufLen`
pub is_full : SendResult → Bool
is_full (sent n) = n == buf_len
is_full send_failed = false
