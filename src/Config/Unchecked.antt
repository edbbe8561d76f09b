-- ===== src/Config/Unchecked.antt =====
-- What the validation of a configuration does not look at.
use go_outbox.Base.{◌≡◌, ◌⊎◌, inl, inr, refl, Bool, false, Option, String}
use go_outbox.Base.Int.{ℤ}
use go_outbox.Core.Errors.{Err}
use go_outbox.Config.{Config}
use go_outbox.Config.Settings.{DispatchConfig}
use go_outbox.Config.Validation.{
  validate, problems, validate_dispatch, validate_limits, validate_times, validate_backoff,
  validate_brokers,
}

-- A configuration with another write-back timeout and another notification channel.
abbrev pub altered : Config → ℤ → String → Config
altered c timeout channel = record c {
  dispatch = record c.dispatch { write_back_timeout = timeout; notify_channel = channel };
}

module _ (trim lower : String → String) (has_prefix contains : String → String → Bool)
    (describe : Err → String) where
  dispatch-altered :
      (d : DispatchConfig) (timeout : ℤ) (channel : String)
      → (d.notify_enabled ≡ false) ⊎ (channel ≡ d.notify_channel)
      → validate_dispatch trim lower has_prefix contains describe
          (record d { write_back_timeout = timeout; notify_channel = channel })
        ≡ validate_dispatch trim lower has_prefix contains describe d
  unfolding validate_dispatch validate_limits validate_times validate_backoff
  dispatch-altered d timeout channel (inl off) = rw off refl
  dispatch-altered d timeout channel (inr same) = rw same refl

  -- The verdict of `validate` does not depend on the timeout of the write-back, be it zero or
  -- negative; nor, where notifications are off, on the name of the channel, be it an identifier or
  -- not.
  pub validate-altered :
      (prior : Option Err) (c : Config) (timeout : ℤ) (channel : String)
      → (c.dispatch.notify_enabled ≡ false) ⊎ (channel ≡ c.dispatch.notify_channel)
      → validate trim lower has_prefix contains describe prior (altered c timeout channel)
        ≡ validate trim lower has_prefix contains describe prior c
  unfolding validate problems validate_brokers
  validate-altered prior c timeout channel off =
      rw (dispatch-altered c.dispatch timeout channel off) refl
