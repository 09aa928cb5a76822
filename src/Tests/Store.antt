-- ===== src/Tests/Store.antt =====
-- The theorems on the in-memory store, on a small history of writes.
use postbox.Common.{string_Eq, pair_Eq}
use postbox.MemStore.Trace.{IsValid, writes-IsValid}
use postbox.Tests.{history, stored}

writes_example : IsValid stored
writes_example = writes-IsValid history
