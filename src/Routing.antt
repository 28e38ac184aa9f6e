-- ===== src/Routing.antt =====
-- src/routing/smpp: which of the configured rules a message matches, and the target it is sent to.
pub mod Digits
pub mod BitSet
pub mod Trie
pub mod RuleMatcher
pub mod Matcher
mod Tests
