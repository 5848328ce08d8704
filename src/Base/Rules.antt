-- ===== src/Base/Rules.antt =====
-- Rule sets that the proofs share.
use mathlib.Core.List.{append_assoc, append-nil}
use native.Mathlib.Omega.{arith}
use paramiko.Base.Tests.{ltb→lt, lt→ltb}
use paramiko.Base.Lists.{length-append, length-take, length-drop, length-replicate}

pub ruleset list_laws = (append-nil, append_assoc)

pub ruleset tests = (arith, ltb→lt, lt→ltb)

pub ruleset lengths = (length-append, length-take, length-drop, length-replicate)
