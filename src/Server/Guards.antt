-- ===== src/Server/Guards.antt =====
-- src/message_handlers/handler_macros.h: what every handler tests before it reads its message.
use core_cpp_archive.Prelude.{if◌then◌else◌, is_empty, leb_ℤ, ltb_ℤ, text, ℕ, ℤ}
use core_cpp_archive.Rapidjson.{Read, got, nullopt, undefined}
use core_cpp_archive.Server.State.{
  Action, PerSocketData, Services, pure, refuse, refuse_if, return, ub, user_data, ◌>>=◌,
}

module _ {v : Services} {A : Type 0} where
  -- `if (!msg) { SEND_ERROR("Unrecognized message", "", "", true); return; }`
  unfoldable pub check_msg : PerSocketData → Read A → Action v A
  check_msg u undefined = λ s. ub
  check_msg u nullopt = refuse u.ws (text "Unrecognized message")
  check_msg u (got msg) = pure msg

  -- DESERIALIZE_WITH_LOGIN_CHECK.
  unfoldable pub deserialize_with_login_check : ℕ → Read A → Action v A
  deserialize_with_login_check id msg = do
    u ← user_data id
    if is_empty u.username then return else check_msg u msg

  -- DESERIALIZE_WITH_NOT_LOGIN_CHECK.
  unfoldable pub deserialize_with_not_login_check : ℕ → Read A → Action v A
  deserialize_with_not_login_check id msg = do
    u ← user_data id
    if is_empty u.username then check_msg u msg else return

  -- DESERIALIZE_WITH_PLAYING_CHECK.
  unfoldable pub deserialize_with_playing_check : ℕ → Read A → Action v A
  deserialize_with_playing_check id msg = do
    u ← user_data id
    _ ← refuse_if (ltb_ℤ u.playing_character_slot (ℤ.pos 0)) u.ws (text "Not playing character")
    check_msg u msg

  -- DESERIALIZE_WITH_NOT_PLAYING_CHECK.
  unfoldable pub deserialize_with_not_playing_check : ℕ → Read A → Action v A
  deserialize_with_not_playing_check id msg = do
    u ← user_data id
    _ ← refuse_if (is_empty u.username) u.ws (text "Not logged in")
    _ ← refuse_if (leb_ℤ (ℤ.pos 0) u.playing_character_slot) u.ws (text "Already playing character")
    check_msg u msg
