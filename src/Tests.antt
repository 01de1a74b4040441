-- ===== src/Tests.antt =====
-- Tests of the model and examples of its theorems, by part of the program.
mod Athenz
mod Changes
mod Policy
mod Policies
mod Processing
mod Provider
mod Rbac
mod Returns
mod Safe
mod Admitted
mod Workqueue
mod Workers
mod Files
mod Started
mod Events
mod DryRun
mod Onboarding
