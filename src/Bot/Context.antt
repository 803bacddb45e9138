-- ===== src/Bot/Context.antt =====
-- bot/context.go: `newContext`. A line is the part of goirc's that the bot reads.
use sp0rkle.Prelude.{Bool, true, false, Bytes, bytes_eq, if◌then◌else◌}
use sp0rkle.Util.Text.{trim_space}
use sp0rkle.Util.Nick.{remove_prefixed_nick}

pub record Line : Type 0 where
  pub is_privmsg : Bool
  pub nick : Bytes
  -- `Args[0]` and `Args[1]`
  pub target : Bytes
  pub message : Bytes

pub record Context : Type 0 where
  pub line : Line
  pub open line use *
  pub addressed : Bool

module _ (to_lower : Bytes → Bytes) where
  -- `me` is the bot's nick on the connection.
  unfoldable pub new_context : Bytes → Line → Context
  new_context me line =
      if line.is_privmsg
      then (let (text, addressed) = remove_prefixed_nick to_lower (trim_space line.message) me in
          record {
            line = record line { message = text };
            addressed = if bytes_eq line.target me then true else addressed;
          })
      else record { line = line; addressed = false }
