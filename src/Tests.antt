-- ===== src/Tests.antt =====
-- The theorems of the other modules at concrete inputs.
mod Orgs
mod ApiKeys
mod AliasHistories
mod Names
mod Delivered
mod Restarted
mod Resynced
mod Budgets
mod Requests
mod Responses
mod Workers
mod Engines
mod Harvests
mod ReadModels
mod Flushes
mod Ticks
mod Admins
mod KeyTexts
mod Runners
